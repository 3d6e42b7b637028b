-- ===== src/Tester/Usage/Documented.antt =====
-- The words that print_usage of src/mqtt/mqttest.cc documents.
use ktkkl.Base.{
  Bool, true, false, ◌&&◌, ◌||◌, not, List, [], ◌∷◌, none, some, ◌≡◌, refl, Bytes, codes, ◌==◌,
  if◌then◌else◌,
}
use ktkkl.Client.Config.{Build}
use ktkkl.Libc.{same}
use ktkkl.Client.Load.{word_of}
use ktkkl.Client.Options.Table.{
  Opt, find_option, table, o_file, o_stdin_line, o_message, o_null, o_retain, o_stdin_file, o_debug,
  o_help, o_insecure, o_version, o_proxy, o_quiet, o_srv, o_will_retain, o_disable_clean_session,
  o_no_eol, o_no_retain, o_verbose,
}
use ktkkl.Tester.Usage.{Version, usage, synopsis, short_options, more_options, long_options}

-- A line " -x : ..." documents the word -x.
abbrev is_entry : Bytes × Bytes → Bool
is_entry (d ∷ w, c ∷ s) = (d == b'-') && (c == b':')
is_entry _ = false

abbrev after_space : Bytes → Bytes
after_space [] = []
after_space (c ∷ s) = if c == 32 then s else []

abbrev pub documented : List Bytes → List Bytes
documented [] = []
documented (l ∷ ls) =
    let rest = documented ls in
    let e = word_of (after_space l) in if is_entry e then e.0 ∷ rest else rest

abbrev pub for_publisher : Opt → Bool
for_publisher o_file = true
for_publisher o_stdin_line = true
for_publisher o_message = true
for_publisher o_null = true
for_publisher o_retain = true
for_publisher o_stdin_file = true
for_publisher _ = false

-- The argument that an option takes, for one way to use it.
abbrev pub sample : Opt → List Bytes
sample o_debug = []
sample o_help = []
sample o_insecure = []
sample o_version = codes "mqttv31" ∷ []
sample o_proxy = codes "socks5h://me:pw@gate:99" ∷ []
sample o_quiet = []
sample o_srv = []
sample o_will_retain = []
sample o_disable_clean_session = []
sample o_no_eol = []
sample o_no_retain = []
sample o_verbose = []
sample _ = codes "1" ∷ []

abbrev pub one_of : Bytes → List Bytes → Bool
one_of w [] = false
one_of w (u ∷ us) = same w u || one_of w us

-- What to put behind a documented word: nothing behind a switch, else a text of the right form.
abbrev pub switches : List Bytes
switches =
    codes "-c"
    ∷ codes "-d"
    ∷ codes "-N"
    ∷ codes "-R"
    ∷ codes "-S"
    ∷ codes "-v"
    ∷ codes "--quiet"
    ∷ codes "--will-retain"
    ∷ codes "--insecure"
    ∷ codes "--help"
    ∷ []

abbrev pub argument_of : Bytes → List Bytes
argument_of w =
    if one_of w switches
    then []
    else if same w (codes "-V")
    then codes "mqttv31" ∷ []
    else if same w (codes "--proxy")
    then codes "socks5h://me:pw@gate:99" ∷ []
    else codes "1" ∷ []

abbrev pub is_help : Opt → Bool
is_help o_help = true
is_help _ = false

abbrev pub same_args : List Bytes → List Bytes → Bool
same_args [] [] = true
same_args (x ∷ xs) (y ∷ ys) = same x y && same_args xs ys
same_args _ _ = false

abbrev pub fits : Bytes → Opt → Bool
fits w o =
    not (for_publisher o)
    && (same_args (sample o) (argument_of w) && (not (is_help o) || same w (codes "--help")))

abbrev pub test : Build → Bytes → Bool
test b w = elim (find_option w (table b)) [ none ↦ false | some o ↦ fits w o ]

abbrev pub test_all : Build → List Bytes → Bool
test_all b [] = true
test_all b (w ∷ ws) = test b w && test_all b ws

abbrev KnownIn : Version → Bool → Bool → Bool → Bool → Type 0
KnownIn v t p s r =
    let b : Build = record { tls = t; tls_psk = p; socks = s; srv = r } in
    test_all b (documented (usage v b)) ≡ true

pub documented_known : (v : Version) (b : Build) → test_all b (documented (usage v b)) ≡ true
unfolding usage word_of find_option table synopsis short_options more_options long_options
documented_known v b = go b.tls b.tls_psk b.socks b.srv
  where
    go : (t p s r : Bool) → KnownIn v t p s r
    go true true true true = refl
    go true true true false = refl
    go true true false true = refl
    go true true false false = refl
    go true false true true = refl
    go true false true false = refl
    go true false false true = refl
    go true false false false = refl
    go false true true true = refl
    go false true true false = refl
    go false true false true = refl
    go false true false false = refl
    go false false true true = refl
    go false false true false = refl
    go false false false true = refl
    go false false false false = refl

pub not-true : (x : Bool) → not x ≡ true → x ≡ false
not-true true e = cc
not-true false e = refl

pub and_true : (x y : Bool) → (x && y) ≡ true → (x ≡ true) × (y ≡ true)
and_true true y e = (refl, e)
and_true false y e = cc
