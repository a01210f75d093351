-- ===== src/Hosts/Bootstrap/Pasted.antt =====
-- What a shell does with the line of src/hosts/bootstrap-command.util.ts.
use servers_manager.Base.{
  ℕ, ◌≡◌, refl, ap, ◌∙◌, sym, true, false, Option, none, some, List, [], ◌∷◌, ◌++◌, append_assoc,
  append-nil, Text, codes, All, ◌==◌, arith,
}
use servers_manager.Hosts.Bootstrap.{build_bootstrap_command}
use servers_manager.Hosts.Bootstrap.Shell.{
  Token, word, op, is_live, is_bare, is_operator, blank, bare, quoted, after, scan, tokens_of,
}

-- A character that stands for itself inside double quotes.
abbrev pub IsQuotable : ℕ → Type 0
IsQuotable c = (c == b'"' ≡ false) × (is_live c ≡ false)

after_nil : (rest : Option (List Token)) → after [] rest ≡ rest
after_nil none = refl
after_nil (some tokens) = refl

scan-quoted :
    (w key rest : Text)
    → All IsQuotable key
    → scan (quoted w) (key ++ b'"' ∷ rest) ≡ scan (bare (w ++ key)) rest
unfolding scan
scan-quoted w [] rest h =
    after_nil (scan (bare w) rest) ∙ ap (λ v. scan (bare v) rest) (sym (append-nil w))
scan-quoted w (c ∷ key) rest h =
    after_nil _
    ∙ rw (h.0.0, h.0.1)
        (scan-quoted (w ++ c ∷ []) key rest h.1
          ∙ ap (λ v. scan (bare v) rest) (append_assoc w (c ∷ []) key))

abbrev pub IsBare : ℕ → Type 0
IsBare c = is_bare c ≡ true

bare_tests :
    (c : ℕ) → IsBare c → (c == b' ' ≡ false) × (c == b'"' ≡ false) × (is_operator c ≡ false)
unfolding is_bare is_operator
bare_tests c h = ground arith

scan-bare :
    (v w rest : Text)
    → All IsBare w
    → scan (bare v) (w ++ b' ' ∷ rest) ≡ after (word (v ++ w) ∷ []) (scan blank rest)
unfolding scan
scan-bare v [] rest h = ap (λ u. after (word u ∷ []) (scan blank rest)) (sym (append-nil v))
scan-bare v (c ∷ w) rest h =
    let tests = bare_tests c h.0 in
    rw (tests.0, tests.1, tests.2, h.0)
      (after_nil _
        ∙ scan-bare (v ++ c ∷ []) w rest h.1
        ∙ ap (λ u. after (word u ∷ []) (scan blank rest)) (append_assoc v (c ∷ []) w))

scan-word :
    (c : ℕ) (w rest : Text)
    → IsBare c
    → All IsBare w
    → scan blank (c ∷ w ++ b' ' ∷ rest) ≡ after (word (c ∷ w) ∷ []) (scan blank rest)
unfolding scan
scan-word c w rest h all =
    let tests = bare_tests c h in
    rw (tests.0, tests.1, tests.2, h) (after_nil _ ∙ scan-bare (c ∷ []) w rest all)

-- The commands that are meant: two on the directory, the line added to the file, and its mode.
abbrev pub before_key : List Token
before_key =
    word (codes "mkdir")
    ∷ word (codes "-p")
    ∷ word (codes "~/.ssh")
    ∷ op b'&'
    ∷ op b'&'
    ∷ word (codes "chmod")
    ∷ word (codes "700")
    ∷ word (codes "~/.ssh")
    ∷ op b'&'
    ∷ op b'&'
    ∷ word (codes "echo")
    ∷ []

abbrev pub behind_key : List Token
behind_key =
    op b'>'
    ∷ op b'>'
    ∷ word (codes "~/.ssh/authorized_keys")
    ∷ op b'&'
    ∷ op b'&'
    ∷ word (codes "chmod")
    ∷ word (codes "600")
    ∷ word (codes "~/.ssh/authorized_keys")
    ∷ []

-- What stands before the key is read as it is meant, whatever follows.
build_bootstrap_command-opens :
    (public_key : Text) (tokens : List Token)
    → scan (quoted []) (
        public_key
        ++ (codes "\" >> ~/.ssh/authorized_keys && " ++ codes "chmod 600 ~/.ssh/authorized_keys"))
      ≡ some tokens
    → tokens_of (build_bootstrap_command public_key) ≡ some (before_key ++ tokens)
unfolding tokens_of build_bootstrap_command scan
build_bootstrap_command-opens public_key tokens h =
    let tail : Text = codes "\" >> ~/.ssh/authorized_keys && " in
    let last : Text = codes "chmod 600 ~/.ssh/authorized_keys" in
    rw (append_assoc public_key tail last) (rw h)

-- A public key with no double quote, dollar, backquote and backslash, its comment included, is
-- handed to `echo` as one word, and the rest of the line is read as it is meant.
pub build_bootstrap_command-tokens :
    (public_key : Text)
    → All IsQuotable public_key
    → tokens_of (build_bootstrap_command public_key)
      ≡ some (before_key ++ word public_key ∷ behind_key)
unfolding scan
build_bootstrap_command-tokens public_key h =
    build_bootstrap_command-opens public_key _ (scan-quoted [] public_key _ h)

-- The end of a public key whose comment is a host name that closes the quote, names a command, and
-- opens a quote again.
abbrev pub closing : ℕ → Text → Text
closing c command = b'"' ∷ b';' ∷ c ∷ command ++ codes " \""

-- A public key that is harmless up to a double quote, a semicolon, a word of plain characters, a
-- space and a double quote at its end, as a host's name in its comment can make it, is split by the
-- shell into the echo of the harmless part and, behind the semicolon, that word as a command of its
-- own with the rest of the line.
pub build_bootstrap_command-runs :
    (key command : Text) (c : ℕ)
    → All IsQuotable key
    → IsBare c
    → All IsBare command
    → tokens_of (build_bootstrap_command (key ++ closing c command))
      ≡ some (before_key ++ word key ∷ op b';' ∷ word (c ∷ command) ∷ word [] ∷ behind_key)
unfolding scan
build_bootstrap_command-runs key command c h first all =
    build_bootstrap_command-opens (key ++ closing c command) _ (
      ap (scan (quoted [])) flat
      ∙ scan-quoted [] key (b';' ∷ c ∷ command ++ b' ' ∷ behind) h
      ∙ ap (after (word key ∷ op b';' ∷ [])) (scan-word c command behind first all))
  where
    behind : Text
    behind =
        b'"' ∷ codes "\" >> ~/.ssh/authorized_keys && " ++ codes "chmod 600 ~/.ssh/authorized_keys"

    flat :
        (key ++ closing c command)
          ++ (codes "\" >> ~/.ssh/authorized_keys && " ++ codes "chmod 600 ~/.ssh/authorized_keys")
        ≡ key ++ (b'"' ∷ b';' ∷ c ∷ command ++ b' ' ∷ behind)
    flat = simp append_assoc
