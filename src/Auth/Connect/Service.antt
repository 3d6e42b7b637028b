-- ===== src/Auth/Connect/Service.antt =====
-- The user names that are no user ids.
use ktkkl.Base.{
  Bool, true, false, ◌&&◌, [], ◌∷◌, ◌++◌, ◌≡◌, refl, ◌∙◌, ◌⊎◌, inl, inr, arith, Bytes, codes,
  length, bytes_eq_iff, Bool-cases, if◌then◌else◌,
}
use ktkkl.Libc.{same, same_prefix}
use ktkkl.Auth.Uid.{minus_one, get_uid}
use ktkkl.Auth.Connect.{MosqErr, success, auth, service_login}

same_prefix_sound :
    (p un : Bytes) → same_prefix (length p) un p ≡ true → (r : Bytes) × (un ≡ p ++ r)
same_prefix_sound [] un h = (un, refl)
same_prefix_sound (c ∷ p) [] h = cc
same_prefix_sound (c ∷ p) (d ∷ un) h =
    let (r, e) = same_prefix_sound p un (ground arith) in (r, ground arith)

same_prefix_append : (p r : Bytes) → same_prefix (length p) (p ++ r) p ≡ true
same_prefix_append [] r = refl
same_prefix_append (c ∷ p) r = ground (arith, same_prefix_append p r)

-- A name and a password that the code knows by heart. Names that begin with `codein_os_` share one
-- password, but for those that begin with `codein_os_js`, which share another.
abbrev pub IsService : Bytes → Bytes → Type 0
IsService un pw =
    ((un ≡ codes "codein") × (pw ≡ codes "codein.tv"))
    ⊎ ((((r : Bytes) × (un ≡ codes "codein_os_js" ++ r)) × (pw ≡ codes "js.codein.tv"))
        ⊎ (((r : Bytes) × (un ≡ codes "codein_os_" ++ r))
            × (¬ ((r : Bytes) × (un ≡ codes "codein_os_js" ++ r)))
            × (pw ≡ codes "os.cOdein.tv")))

same_prefix_complete :
    (p un : Bytes) → ((r : Bytes) × (un ≡ p ++ r)) → same_prefix (length p) un p ≡ true
same_prefix_complete p un (r, e) = rw e (same_prefix_append p r)

abbrev js : Bytes
js = codes "codein_os_js"

abbrev os : Bytes
os = codes "codein_os_"

-- The ladder of the code, over its tests.
ladder : Bool → Bool → Bool → Bool → Bool → Bool → MosqErr
ladder a b p q c d =
    if a && b
    then success
    else if p
    then (if q then (if c then success else auth) else if d then success else auth)
    else auth

ladder_cases :
    (a b p q c d : Bool)
    → ladder a b p q c d ≡ success
    → ((a ≡ true) × (b ≡ true))
      ⊎ (((q ≡ true) × (c ≡ true)) ⊎ ((p ≡ true) × (q ≡ false) × (d ≡ true)))
unfolding ladder
ladder_cases a b p q c d h = ground arith

pub service_login_sound : (un pw : Bytes) → service_login un pw ≡ success → IsService un pw
unfolding service_login ladder
service_login_sound un pw h =
    elim (ladder_cases (same un (codes "codein")) (same pw (codes "codein.tv"))
      (same_prefix 10 un os) (same_prefix 12 un js) (same pw (codes "js.codein.tv"))
      (same pw (codes "os.cOdein.tv")) h) [
        | inl (a, b) ↦
            inl ((bytes_eq_iff un (codes "codein")).0 a, (bytes_eq_iff pw (codes "codein.tv")).0 b)
        | inr (inl (q, c)) ↦
            inr (inl (same_prefix_sound js un q, (bytes_eq_iff pw (codes "js.codein.tv")).0 c))
        | inr (inr (p, q, d)) ↦ inr (
            inr (same_prefix_sound os un p, not_js q, (bytes_eq_iff pw (codes "os.cOdein.tv")).0 d))
      ]
  where
    not_js : same_prefix 12 un js ≡ false → ¬ ((r : Bytes) × (un ≡ js ++ r))
    not_js q (r, e) = let t = same_prefix_complete js un (r, e) in cc

pub service_login_complete : (un pw : Bytes) → IsService un pw → service_login un pw ≡ success
unfolding service_login
service_login_complete un pw (inl (e, f)) = rw (e, f)
service_login_complete un pw (inr (inl ((r, e), f))) = rw (e, f)
service_login_complete un pw (inr (inr ((r, e), g, f))) =
    elim (Bool-cases (same_prefix 12 (os ++ r) js)) [
      | inl t ↦ absurd (g (let (x, q) = same_prefix_sound js (os ++ r) t in (x, e ∙ q)))
      | inr t ↦ rw (e, f, t)
    ]

pub IsService-get_uid : (un pw : Bytes) → IsService un pw → get_uid un ≡ minus_one
unfolding get_uid
IsService-get_uid un pw (inl (e, f)) = rw e
IsService-get_uid un pw (inr (inl ((r, e), f))) = rw e
IsService-get_uid un pw (inr (inr ((r, e), g, f))) = rw e
