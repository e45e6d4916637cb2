-- ===== src/Core/Handshake.antt =====
-- What a hello of src/syllva/core/stdio.py has passed.
use syllva.Prelude.{
  ◌≤◌, Text, codes, teq_iff, Bool, true, ◌&&◌, Option, none, some, ◌≡◌, refl, ap, arith, inl, inr,
  Bool-cases, length,
}
use syllva.Gate.Canonical.{Fields}
use syllva.Core.{
  Hello, Item, message, eof, violation, get, string_of, is_version, matched, is_secret,
  is_shell_version, is_platform, decode_secret, make_hello, is_hello, parse_hello, handshake,
  greeted, greeting_of,
}

pub record IsGreeting (m : Fields) (h : Hello) : Type 0 where
  pub kind : string_of (get (codes "t") m) ≡ some (codes "hello")
  pub versioned : is_version (get (codes "v") m) ≡ true
  pub decoded : decode_secret (string_of (get (codes "secret_b64") m)) ≡ some h.secret
  pub secret_length : length h.secret ≡ 32
  pub version_read : string_of (get (codes "shell_version") m) ≡ some h.shell_version
  pub version_some : 1 ≤ length h.shell_version
  pub version_short : length h.shell_version ≤ 64
  pub platform_read : string_of (get (codes "platform") m) ≡ some h.platform
  pub platform : is_platform h.platform ≡ true

matched-some :
    (f : Text → Bool) (o : Option Text) (x : Text)
    → matched f o ≡ some x
    → (o ≡ some x) × (f x ≡ true)
matched-some f none x h = ground arith
matched-some f (some y) x h = ground arith

make_hello-some :
    (a b c : Option Text) (h : Hello)
    → make_hello a b c ≡ some h
    → (a ≡ some h.secret) × (b ≡ some h.shell_version) × (c ≡ some h.platform)
make_hello-some none b c h e = ground arith
make_hello-some (some x) none c h e = ground arith
make_hello-some (some x) (some y) none h e = ground arith
make_hello-some (some x) (some y) (some z) h e = ground arith

is_hello-text : (o : Option Text) → is_hello o ≡ true → o ≡ some (codes "hello")
is_hello-text none h = ground arith
is_hello-text (some t) h = ap some ((teq_iff t (codes "hello")).0 h)

is_secret-length : (t : Text) → is_secret t ≡ true → length t ≡ 32
is_secret-length t h = ground arith

is_shell_version-length : (t : Text) → is_shell_version t ≡ true → (1 ≤ length t) × (length t ≤ 64)
is_shell_version-length t h = (ground arith, ground arith)

both : (a b : Bool) → (a && b) ≡ true → (a ≡ true) × (b ≡ true)
both a b h = ground arith

parse_hello-IsGreeting : (m : Fields) (h : Hello) → parse_hello m ≡ some h → IsGreeting m h
unfolding parse_hello
parse_hello-IsGreeting m h =
    elim (Bool-cases (is_hello (string_of (get (codes "t") m)) && is_version (get (codes "v") m))) [
      | inr e ↦ rw e (λ q. ground arith)
      | inl e ↦ rw e (λ q.
          let s = make_hello-some _ _ _ h q in
          let g =
            both (is_hello (string_of (get (codes "t") m))) (is_version (get (codes "v") m)) e in
          let x =
            matched-some is_secret (decode_secret (string_of (get (codes "secret_b64") m))) h.secret
              s.0 in
          let y =
            matched-some is_shell_version (string_of (get (codes "shell_version") m))
              h.shell_version s.1 in
          let z = matched-some is_platform (string_of (get (codes "platform") m)) h.platform s.2 in
          let l = is_shell_version-length h.shell_version y.1 in
          record {
            kind = is_hello-text (string_of (get (codes "t") m)) g.0;
            versioned = g.1;
            decoded = x.0;
            secret_length = is_secret-length h.secret x.1;
            version_read = y.0;
            version_some = l.0;
            version_short = l.1;
            platform_read = z.0;
            platform = z.1;
          })
    ]

-- The Core goes on only after a message of the type "hello" and of the protocol's version, whose secret
-- decodes to 32 bytes, whose Shell version has 1 to 64 characters, and whose platform is one of the
-- three. The secret, the version and the platform that it goes on with are those of the message.
pub handshake-IsGreeting :
    (i : Item) (h : Hello)
    → handshake i ≡ greeted h
    → (m : Fields) × (i ≡ message m) × IsGreeting m h
unfolding handshake
handshake-IsGreeting eof h e = ground arith
handshake-IsGreeting violation h e = ground arith
handshake-IsGreeting (message m) h e =
    (m, refl, parse_hello-IsGreeting m h (greeting (parse_hello m) e))
  where
    greeting : (o : Option Hello) → greeting_of o ≡ greeted h → o ≡ some h
    greeting none q = ground arith
    greeting (some x) q = ground arith
