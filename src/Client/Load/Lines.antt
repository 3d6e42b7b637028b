-- ===== src/Client/Load/Lines.antt =====
-- The default file of client_config_load in src/mqtt/client_shared.cc, line by line.
use ktkkl.Base.{
  ℕ, zero, suc, false, List, [], ◌∷◌, ◌++◌, append_assoc, map, none, some, ◌≡◌, ◌≢◌, refl, sym, ap,
  ◌∙◌, arith, Bytes, All, All-append, ◌==◌, ==_iff,
}
use mathlib.Core.Path.{subst}
use ktkkl.Client.Config.{Config, Role, Build, init_config}
use ktkkl.Client.Options.{line_proc}
use ktkkl.Client.Options.Apply.{TopicChecks}
use ktkkl.Client.Options.Valid.{IsValid, init_config-IsValid}
use ktkkl.Client.Options.Invariant.{line_proc-IsValid}
use ktkkl.Client.Options.Append.{line_proc-append}
use ktkkl.Client.Load.{
  Machine, default_file, strip_end, word_of, strtok, args_of, is_comment, load_line, load_lines,
  load_file, read_options,
}

-- A byte of a word: no space and no line end.
abbrev pub IsInner : ℕ → Type 0
IsInner c = (c ≢ 32) × (c ≢ 10) × (c ≢ 13)

-- A word is not empty.
abbrev pub IsWord : Bytes → Type 0
IsWord [] = ⊥
IsWord (c ∷ s) = All IsInner (c ∷ s)

-- An option, maybe with a value.
pub data Entry : Type 0 where
  flag : Bytes → Entry
  setting : Bytes → Bytes → Entry

abbrev pub print_entry : Entry → Bytes
print_entry (flag w) = w ++ 10 ∷ []
print_entry (setting w v) = (w ++ 32 ∷ v) ++ 10 ∷ []

abbrev pub arguments : Entry → List Bytes
arguments (flag w) = w ∷ []
arguments (setting w v) = w ∷ v ∷ []

-- The words are words, and the line is no comment.
abbrev pub IsEntry : Entry → Type 0
IsEntry (flag w) = IsWord w × (is_comment w ≡ false)
IsEntry (setting w v) = IsWord w × IsWord v × (is_comment w ≡ false)

abbrev NotEnd : ℕ → Type 0
NotEnd c = (c ≢ 10) × (c ≢ 13)

strip_line : (s : Bytes) → All NotEnd s → strip_end (s ++ 10 ∷ []) ≡ s
unfolding strip_end
strip_line [] h = refl
strip_line (c ∷ []) ((p, q), h) = ground (arith, ==_iff c 10, ==_iff c 13)
strip_line (c ∷ d ∷ s) (p, h) = rw (strip_line (d ∷ s) h, strip_end) refl

inner_NotEnd : (s : Bytes) → All IsInner s → All NotEnd s
inner_NotEnd [] h = tt
inner_NotEnd (c ∷ s) ((n, a, b), hs) = ((a, b), inner_NotEnd s hs)

not_space : (c : ℕ) → c ≢ 32 → (c == 32) ≡ false
not_space c h = ground (arith, ==_iff c 32)

word_of_stop : (w v : Bytes) → All IsInner w → word_of (w ++ 32 ∷ v) ≡ (w, v)
unfolding word_of
word_of_stop [] v h = refl
word_of_stop (c ∷ w) v ((n, a, b), hs) = rw (word_of_stop w v hs, not_space c n, word_of) refl

word_of_whole : (w : Bytes) → All IsInner w → word_of w ≡ (w, [])
unfolding word_of
word_of_whole [] h = refl
word_of_whole (c ∷ w) ((n, a, b), hs) = rw (word_of_whole w hs, not_space c n, word_of) refl

-- The first word of a line, and a word that is the whole line.
strtok_first : (w v : Bytes) → IsWord w → strtok (w ++ 32 ∷ v) ≡ some (w, v)
unfolding strtok
strtok_first [] v h = absurd h
strtok_first (c ∷ w) v ((n, a, b), hs) = rw (not_space c n, word_of_stop w v hs, strtok) refl

strtok_only : (w : Bytes) → IsWord w → strtok w ≡ some (w, [])
unfolding strtok
strtok_only [] h = absurd h
strtok_only (c ∷ w) ((n, a, b), hs) = rw (not_space c n, word_of_whole w hs, strtok) refl

word_NotEnd : (w : Bytes) → IsWord w → All NotEnd w
word_NotEnd [] h = absurd h
word_NotEnd (c ∷ w) h = inner_NotEnd (c ∷ w) h

strtok_end : strtok [] ≡ none
unfolding strtok
strtok_end = refl

args_of-print_entry : (e : Entry) → IsEntry e → args_of (print_entry e) ≡ some (arguments e)
args_of-print_entry (flag w) (h, k) =
    rw (strip_line w (word_NotEnd w h), strtok_only w h, strtok_end, args_of) refl
args_of-print_entry (setting w v) (h, hv, k) =
    let line =
      All-append NotEnd w (32 ∷ v) (word_NotEnd w h)
        (((λ e. absurd (omega arith)), (λ e. absurd (omega arith))), word_NotEnd v hv) in
    rw (strip_line (w ++ 32 ∷ v) line, strtok_first w v h, strtok_only v hv, args_of) refl

comment_first : (w rest : Bytes) → IsWord w → is_comment (w ++ rest) ≡ is_comment w
comment_first [] rest h = absurd h
comment_first (c ∷ w) rest h = refl

not_comment : (e : Entry) → IsEntry e → is_comment (print_entry e) ≡ false
not_comment (flag w) (h, k) = comment_first w _ h ∙ k
not_comment (setting w v) (h, hv, k) =
    ap is_comment (append_assoc w (32 ∷ v) (10 ∷ [])) ∙ (comment_first w _ h ∙ k)

-- The words of a file of entries.
abbrev pub all_arguments : List Entry → List Bytes
all_arguments [] = []
all_arguments (e ∷ es) = arguments e ++ all_arguments es

-- A first part that fails is the result.
abbrev pub then_part : ℕ × Config → (Config → ℕ × Config) → ℕ × Config
then_part r f = elim r.0 [ zero ↦ f r.1 | suc n ↦ (suc n, r.1) ]

pub then_part-zero :
    (r : ℕ × Config) (f : Config → ℕ × Config)
    → (then_part r f).0 ≡ 0
    → (r.0 ≡ 0) × (then_part r f ≡ f r.1)
then_part-zero (zero, c) f e = (refl, refl)
then_part-zero (suc n, c) f e = absurd (omega arith)

module _ (b : Build) (role : Role) (tc : TopicChecks) where
  load_line-print_entry :
      (c : Config) (e : Entry)
      → IsEntry e
      → load_line b role tc c (print_entry e) ≡ line_proc b role tc c (arguments e)
  unfolding load_line
  load_line-print_entry c e h = rw (not_comment e h, args_of-print_entry e h) refl

  load_lines-print_entry :
      (es : List Entry) (c : Config) (args : List Bytes)
      → IsValid c
      → All IsEntry es
      → (load_lines b role tc c (map print_entry es)).0 ≡ 0
      → line_proc b role tc c (all_arguments es ++ args)
        ≡ line_proc b role tc (load_lines b role tc c (map print_entry es)).1 args
  unfolding load_lines
  load_lines-print_entry [] c args v h k = refl
  load_lines-print_entry (e ∷ es) c args v (he, hs) k =
      let (k1, s1) =
        then_part-zero (load_line b role tc c (print_entry e))
          (λ d. load_lines b role tc d (map print_entry es)) k in
      let same = load_line-print_entry c e he in
      let k2 = sym (ap (λ r. r.0) same) ∙ k1 in
      let next =
        load_lines-print_entry es (load_line b role tc c (print_entry e)).1 args
          (subst (λ r. IsValid r.1) (sym same) (line_proc-IsValid b role tc c (arguments e) v k2))
          hs (sym (ap (λ r. r.0) s1) ∙ k) in
      ap (λ l. line_proc b role tc c l) (append_assoc (arguments e) (all_arguments es) args)
      ∙ (line_proc-append b role tc c (arguments e) (all_arguments es ++ args) v k2
          ∙ (ap (λ r. line_proc b role tc r.1 (all_arguments es ++ args)) (sym same)
              ∙ (next ∙ ap (λ r. line_proc b role tc r.1 args) (sym s1))))

  load_file_lines :
      (m : Machine) (loc : Bytes) (lines : List Bytes) (c : Config)
      → default_file m role ≡ some loc
      → m.open_lines loc ≡ some lines
      → load_file m b role tc c ≡ load_lines b role tc c lines
  unfolding load_file
  load_file_lines m loc lines c d o = rw (load_file, d, o) refl

  pub read_options-load_file :
      (m : Machine) (args : List Bytes)
      → (load_file m b role tc init_config).0 ≡ 0
      → read_options m b role tc args
        ≡ line_proc b role tc (load_file m b role tc init_config).1 args
  unfolding read_options
  read_options-load_file m args = go (load_file m b role tc init_config)
    where
      go :
          (r : ℕ × Config)
          → r.0 ≡ 0
          → then_part r (λ c. line_proc b role tc c args) ≡ line_proc b role tc r.1 args
      go (zero, c) e = refl
      go (suc n, c) e = absurd (omega arith)

  -- Where the default file of the client is there and consists of lines with one or two words each, no
  -- comment among them, and these lines are accepted, client_config_load reads its options as if the words
  -- of the file stood in front of the command line.
  pub file_as_arguments :
      (m : Machine) (loc : Bytes) (es : List Entry) (args : List Bytes)
      → default_file m role ≡ some loc
      → m.open_lines loc ≡ some (map print_entry es)
      → All IsEntry es
      → (load_lines b role tc init_config (map print_entry es)).0 ≡ 0
      → read_options m b role tc args ≡ line_proc b role tc init_config (all_arguments es ++ args)
  file_as_arguments m loc es args d o h k =
      let f = load_file_lines m loc (map print_entry es) init_config d o in
      read_options-load_file m args (ap (λ r. r.0) f ∙ k)
      ∙ (ap (λ r. line_proc b role tc r.1 args) f
          ∙ sym (load_lines-print_entry es init_config args init_config-IsValid h k))
