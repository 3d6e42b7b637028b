-- ===== src/Client/Owned.antt =====
-- Which blocks client_config_cleanup of src/mqtt/client_shared.cc frees, and how often.
pub mod Branches
pub mod Cleanup
pub mod Loaded
pub mod Twice
use ktkkl.Base.{
  ℕ, zero, suc, ◌+◌, ◌≤◌, List, [], ◌∷◌, ◌++◌, map, Option, none, some, ◌≡◌, refl, ap, ◌∙◌, arith,
  append_assoc, Bytes, ltb, ◌==◌, if◌then◌else◌,
}
use ktkkl.Client.Config.{
  Config, CStr, literal, heap, Freed, chars, array, free_all, freed, init_config,
}

-- The sum of the weights of the strings that pointers point to.
module _ (w : CStr → ℕ) where
  abbrev pub weight : Option CStr → ℕ
  weight none = 0
  weight (some p) = w p

  -- The arrays are no strings.
  abbrev pub total : List Freed → ℕ
  total [] = 0
  total (chars p ∷ ps) = weight p + total ps
  total (array ts ∷ ps) = total ps

  abbrev pub total_of : List CStr → ℕ
  total_of [] = 0
  total_of (p ∷ ps) = w p + total_of ps

  -- The same sum over the fields.
  abbrev pub weigh : Config → ℕ
  weigh c =
      weight c.id
      + (weight c.id_prefix
          + (weight c.host
              + (weight c.file_input
                  + (weight c.message
                      + (weight c.topic
                          + (weight c.bind_address
                              + (weight c.username
                                  + (weight c.password
                                      + (weight c.will_topic
                                          + (weight c.will_payload
                                              + (weight c.cafile
                                                  + (weight c.capath
                                                      + (weight c.certfile
                                                          + (weight c.keyfile
                                                            + (weight c.ciphers
                                                            + (weight c.tls_version
                                                            + (weight c.psk
                                                            + (weight c.psk_identity
                                                            + (total_of c.topics
                                                            + (total_of c.filter_outs
                                                            + (weight c.socks5_host
                                                            + (weight c.socks5_username
                                                            + (weight c.socks5_password
                                                            + 0)))))))))))))))))))))))

  total-map :
      (ps : List CStr) (rest : List Freed)
      → total (map (λ q. chars (some q)) ps ++ rest) ≡ total_of ps + total rest
  total-map [] rest = omega arith
  total-map (p ∷ ps) rest = omega (arith, total-map ps rest)

  total-free_all :
      (ps : List CStr) (rest : List Freed) → total (free_all ps ++ rest) ≡ total_of ps + total rest
  total-free_all [] rest = omega arith
  total-free_all (p ∷ ps) rest =
      ap total (append_assoc (map (λ q. chars (some q)) (p ∷ ps)) (array (p ∷ ps) ∷ []) rest)
      ∙ total-map (p ∷ ps) (array (p ∷ ps) ∷ rest)

  pub total-freed : (c : Config) → total (freed c) ≡ weigh c
  total-freed c =
      let socks = chars c.socks5_host ∷ chars c.socks5_username ∷ chars c.socks5_password ∷ [] in
      omega (
        arith,
        total-free_all c.topics (free_all c.filter_outs ++ socks),
        total-free_all c.filter_outs socks,
      )

  pub total_of-append : (ps : List CStr) (p : CStr) → total_of (ps ++ p ∷ []) ≡ total_of ps + w p
  total_of-append [] p = omega arith
  total_of-append (q ∷ ps) p = omega (arith, total_of-append ps p)

abbrev pub is_block : ℕ → CStr → ℕ
is_block k (literal s) = 0
is_block k (heap a s) = if a == k then 1 else 0

abbrev pub is_literal : CStr → ℕ
is_literal (literal s) = 1
is_literal (heap a s) = 0

-- The strings that client_config_cleanup frees are blocks of the allocator, each of them once at most: of
-- the blocks handed out so far none is freed twice, and no literal is freed.
pub record IsOwned (c : Config) : Type 0 where
  pub once : (k : ℕ) → total (is_block k) (freed c) ≤ (if ltb k c.next then 1 else 0)
  pub allocated : total is_literal (freed c) ≡ 0

pub init_config-IsOwned : IsOwned init_config
unfolding init_config
init_config-IsOwned = record { once = λ k. omega arith; allocated = refl }

-- A change that leaves the pointers alone.
pub unchanged : {c c' : Config} → freed c' ≡ freed c → c'.next ≡ c.next → IsOwned c → IsOwned c'
unchanged f n v = record {
  once = λ k.
      let e = ap (total (is_block k)) f in
      let b = ap (λ m. let r : ℕ = if ltb k m then 1 else 0 in r) n in
      let o = v.once k in omega arith;
  allocated = ap (total is_literal) f ∙ v.allocated;
}

-- The bound for the next block's number.
one_more :
    (x y k n n' : ℕ)
    → n' ≡ suc n
    → x ≤ (if ltb k n then 1 else 0)
    → y ≤ x + (if n == k then 1 else 0)
    → y ≤ (if ltb k n' then 1 else 0)
one_more x y k n n' e h g = ground arith

-- A change that stores one new block, in place of some of the old pointers.
pub adds :
    {c c' : Config} (s : Bytes)
    → c'.next ≡ suc c.next
    → ((w : CStr → ℕ) → weigh w c' ≤ weigh w c + w (heap c.next s))
    → IsOwned c
    → IsOwned c'
adds {c} {c'} s n more v = record {
  once = λ k.
      let e = total-freed (is_block k) c in
      let e' = total-freed (is_block k) c' in
      let m = more (is_block k) in
      let o = v.once k in
      one_more (weigh (is_block k) c) (total (is_block k) (freed c')) k c.next c'.next n
        (omega arith) (omega arith);
  allocated =
      let e = total-freed is_literal c in
      let e' = total-freed is_literal c' in
      let m = more is_literal in let o = v.allocated in omega arith;
}
