-- ===== src/Client/Ident/Limit.antt =====
-- What a generated client id holds, and that two processes get two ids.
use ktkkl.Base.{
  ℕ, ◌+◌, ◌≤◌, ◌<◌, true, [], ◌∷◌, ◌++◌, Option, none, some, ◌≡◌, arith, Bytes, length,
  length-take_le, Option-cases, length-append, take_all, ltb, Bool-cases, inl, inr,
}
use ktkkl.Libc.{show}
use ktkkl.Libc.Length.{ten_to, length-show}
use ktkkl.Client.Options.Valid.{size}
use ktkkl.Client.Config.{Config, CStr, text}
use ktkkl.Client.Ident.{
  prefixed, described, cut, host_buffer, client_id_generate, mqtt_id_max_length,
}

-- The largest process id has seven digits.
abbrev pub pid_bound : ℕ
pid_bound = ten_to 7

-- A prefix is followed by the whole process id.
prefixed_lem :
    (prefix : Bytes) (pid : ℕ) → pid < pid_bound → prefixed prefix pid ≡ prefix ++ show pid
unfolding prefixed
prefixed_lem prefix pid h =
    take_all (prefix ++ show pid) _
      (omega (arith, length-append {0} prefix (show pid), length-show pid 6 h))

length-cut : (id : Bytes) → length (cut id) ≤ 23
unfolding cut
length-cut id = elim (Bool-cases (ltb 23 (length id))) [
  | inl e ↦ rw e (length-take_le 23 id)
  | inr e ↦ rw e (ground arith)
]

-- The text of the pointer `id`.
abbrev pub id_text : Config → Bytes
id_text c = elim c.id [ none ↦ [] | some s ↦ text s ]

-- base, a dash, the process id, a dash.
abbrev front : Bytes → ℕ → Bytes
front base pid = base ++ b'-' ∷ (show pid ++ b'-' ∷ [])

-- The process id can be read back out of an id, behind what stands in front of it.
abbrev offset : Option CStr → Bytes → ℕ
offset none base = length base + 1
offset (some prefix) base = length (text prefix)

module _ (cfg : Config) (base : Bytes) (none_given : cfg.id ≡ none) where
  -- An id that is generated has at most 23 bytes, the limit of the protocol, where a prefix has at most
  -- 16, and the process id seven digits.
  pub client_id_generate_limit :
      (pid : ℕ) (name : Bytes)
      → pid < pid_bound
      → size cfg.id_prefix ≤ 16
      → length (id_text (client_id_generate true pid name base cfg).1.1) ≤ mqtt_id_max_length
  unfolding client_id_generate
  client_id_generate_limit pid name h small = elim (Option-cases cfg.id_prefix) [
    | inl e ↦ rw (e, none_given) (length-cut (described base pid (host_buffer name)))
    | inr (p, e) ↦
        let short : size (some p) ≤ 16 = rw e at small in
        rw (e, prefixed_lem (text p) pid h)
          (omega (arith, length-append {0} (text p) (show pid), length-show pid 6 h))
  ]
