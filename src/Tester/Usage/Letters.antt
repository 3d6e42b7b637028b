-- ===== src/Tester/Usage/Letters.antt =====
-- The options of one letter of src/mqtt/client_shared.cc, and which of them print_usage of
-- src/mqtt/mqttest.cc leaves out.
use ktkkl.Base.{
  ℕ, Bool, true, false, ◌&&◌, ◌||◌, not, List, [], ◌∷◌, Option, none, some, ◌≡◌, ◌≢◌, refl, sym, ap,
  ◌⊎◌, inl, inr, Bool-cases, bytes_eq_iff, Bytes, codes, ◌==◌, length, if◌then◌else◌,
}
use mathlib.Core.Path.{subst}
use ktkkl.Libc.{same}
use ktkkl.Client.Config.{Build, Config, client_sub}
use ktkkl.Client.Load.{word_of}
use ktkkl.Client.Options.{line_proc}
use ktkkl.Client.Options.Words.{line_proc_stop, line_proc_unknown}
use ktkkl.Client.Options.Apply.{TopicChecks, apply_option, stop}
use ktkkl.Client.Options.Table.{
  Opt, find_option, table, o_file, o_stdin_line, o_message, o_null, o_retain, o_stdin_file,
}
use ktkkl.Tester.Usage.{Version, usage, synopsis, short_options, more_options, long_options}
use ktkkl.Tester.Usage.Documented.{documented, for_publisher, one_of, and_true}

some_injective : {A : Type 0} {a b : A} → some a ≡ some b → a ≡ b
some_injective q = cc

-- A dash and a letter, for the subscriber, but not -b and not -M.
abbrev is_letter : Bytes → Opt → Bool
is_letter w o =
    (length w == 2) && (not (for_publisher o) && not (same w (codes "-b") || same w (codes "-M")))

abbrev pub letters : List (Bytes × Opt) → List Bytes
letters [] = []
letters ((w, o) ∷ es) = let rest = letters es in if is_letter w o then w ∷ rest else rest

abbrev all_of : List Bytes → List Bytes → Bool
all_of [] us = true
all_of (w ∷ ws) us = one_of w us && all_of ws us

abbrev Complete : Version → Build → Type 0
Complete v b =
    let us = documented (usage v b) in
    (all_of (letters (table b)) us ≡ true)
    × (one_of (codes "-b") us ≡ false)
    × (one_of (codes "-M") us ≡ false)

usage-Complete : (v : Version) (b : Build) → Complete v b
unfolding usage word_of table synopsis short_options more_options long_options
usage-Complete v b = go b.tls b.tls_psk b.socks b.srv
  where
    go :
        (t p s r : Bool)
        → Complete v (let b : Build = record { tls = t; tls_psk = p; socks = s; srv = r } in b)
    go true true true true = (refl, refl, refl)
    go true true true false = (refl, refl, refl)
    go true true false true = (refl, refl, refl)
    go true true false false = (refl, refl, refl)
    go true false true true = (refl, refl, refl)
    go true false true false = (refl, refl, refl)
    go true false false true = (refl, refl, refl)
    go true false false false = (refl, refl, refl)
    go false true true true = (refl, refl, refl)
    go false true true false = (refl, refl, refl)
    go false true false true = (refl, refl, refl)
    go false true false false = (refl, refl, refl)
    go false false true true = (refl, refl, refl)
    go false false true false = (refl, refl, refl)
    go false false false true = (refl, refl, refl)
    go false false false false = (refl, refl, refl)

-- An option of one letter is among the words that are looked for.
one_of-find_option :
    (es : List (Bytes × Opt)) (us : List Bytes) (w : Bytes) (o : Opt)
    → all_of (letters es) us ≡ true
    → find_option w es ≡ some o
    → is_letter w o ≡ true
    → one_of w us ≡ true
unfolding find_option
one_of-find_option [] us w o all found h = cc
one_of-find_option ((word, p) ∷ es) us w o all found h = elim (Bool-cases (same w word)) [
  | inl e ↦
      let same_word : word ≡ w = sym ((bytes_eq_iff w word).0 e) in
      let same_option : p ≡ o = some_injective (rw e at found) in
      let is_one =
        subst (λ v. is_letter v p ≡ true) (sym same_word)
          (subst (λ q. is_letter w q ≡ true) (sym same_option) h) in
      subst (λ v. one_of v us ≡ true) same_word
        (and_true (one_of word us) (all_of (letters es) us) (rw is_one at all)).0
  | inr f ↦
      one_of-find_option es us w o
        (elim (Bool-cases (is_letter word p)) [
          | inl e ↦ (and_true (one_of word us) (all_of (letters es) us) (rw e at all)).1
          | inr g ↦ rw g at all
        ])
        (rw f at found) h
]

-- The subscriber's parser ends with code 1 at an option that is the publisher's only.
refused_option :
    (tc : TopicChecks) (cfg : Config) (o : Opt)
    → for_publisher o ≡ true
    → (value : Option Bytes) → apply_option client_sub tc cfg o value ≡ stop 1 cfg
unfolding apply_option
refused_option tc cfg o_file h value = refl
refused_option tc cfg o_stdin_line h value = refl
refused_option tc cfg o_message h value = refl
refused_option tc cfg o_null h value = refl
refused_option tc cfg o_retain h value = refl
refused_option tc cfg o_stdin_file h value = refl
refused_option tc cfg _ h value = cc

-- A dash and one byte that the subscriber's parser does not refuse outright, whatever its configuration
-- and the arguments behind: print_usage documents it, or it is -b or -M; and neither of these two is
-- documented. The build and the version are any.
pub usage-letters :
    (v : Version) (b : Build) (tc : TopicChecks) (cfg : Config) (letter : ℕ) (args : List Bytes)
    → (line_proc b client_sub tc cfg ((b'-' ∷ letter ∷ []) ∷ args)).0 ≢ 1
    → ((one_of (b'-' ∷ letter ∷ []) (documented (usage v b)) ≡ true)
        ⊎ (((b'-' ∷ letter ∷ []) ≡ codes "-b") ⊎ ((b'-' ∷ letter ∷ []) ≡ codes "-M")))
      × (one_of (codes "-b") (documented (usage v b)) ≡ false)
      × (one_of (codes "-M") (documented (usage v b)) ≡ false)
usage-letters v b tc cfg letter args taken =
    let (all, no_b, no_m) = usage-Complete v b in
    (go all (find_option w (table b)) refl, no_b, no_m)
  where
    w : Bytes
    w = b'-' ∷ letter ∷ []

    Named : Type 0
    Named = (one_of w (documented (usage v b)) ≡ true) ⊎ ((w ≡ codes "-b") ⊎ (w ≡ codes "-M"))

    known :
        all_of (letters (table b)) (documented (usage v b)) ≡ true
        → (o : Opt) → find_option w (table b) ≡ some o
        → for_publisher o ≡ false
        → Named
    known all o f n = elim (Bool-cases (same w (codes "-b"))) [
      | inl e ↦ inr (inl ((bytes_eq_iff w (codes "-b")).0 e))
      | inr e ↦ elim (Bool-cases (same w (codes "-M"))) [
        | inl k ↦ inr (inr ((bytes_eq_iff w (codes "-M")).0 k))
        | inr k ↦
            inl
              (one_of-find_option (table b) (documented (usage v b)) w o all f (rw (n, e, k) refl))
      ]
    ]

    go :
        all_of (letters (table b)) (documented (usage v b)) ≡ true
        → (r : Option Opt) → find_option w (table b) ≡ r
        → Named
    go all none f = absurd (taken (ap (λ r. r.0) (line_proc_unknown b client_sub tc cfg w args f)))
    go all (some o) f = elim (Bool-cases (for_publisher o)) [
      | inl p ↦ absurd (
          taken (
            ap (λ r. r.0)
              (line_proc_stop b client_sub tc cfg cfg 1 w args o f (refused_option tc cfg o p))))
      | inr n ↦ known all o f n
    ]
