-- ===== src/Transport/Endpoints.antt =====
-- What a parsed endpoint is good for: it prints back to itself, and over TCP it is local.
use ius.Base.{◌≡◌, inl, inr, Bool, true, Option, some, Option-cases, Outcome, ok, arith, refl}
use ius.Base.Strings.{Text, strip_prefix}
use ius.Base.Texts.{bytes}
use ius.Transport.{
  Endpoint, unix, named_pipe, tcp, ParseError, parse, parse_pipe, parse_tcp, display_string,
}

-- What the parser says of the endpoint that it returns.
abbrev pub IsAccepted :
    {Addr : Type 0} → (Text → Option Addr) → (Addr → Bool) → Endpoint Addr → Type 0
IsAccepted parse_addr is_loopback (unix p) = Unit
IsAccepted {Addr = Addr} parse_addr is_loopback (named_pipe n) =
    parse_pipe {Addr = Addr} n ≡ ok (named_pipe n)
IsAccepted parse_addr is_loopback (tcp a) = is_loopback a ≡ true

module _ {Addr : Type 0} (parse_addr : Text → Option Addr) (is_loopback : Addr → Bool) where
  parse_pipe-IsAccepted :
      (name : Text) (e : Endpoint Addr)
      → parse_pipe name ≡ ok e
      → IsAccepted parse_addr is_loopback e
  unfolding parse_pipe
  parse_pipe-IsAccepted name (unix p) h = tt
  parse_pipe-IsAccepted name (named_pipe n) h = ground arith
  parse_pipe-IsAccepted name (tcp a) h = ground arith

  parse_tcp-IsAccepted :
      (addr : Text) (e : Endpoint Addr)
      → parse_tcp parse_addr is_loopback addr ≡ ok e
      → IsAccepted parse_addr is_loopback e
  unfolding parse_tcp
  parse_tcp-IsAccepted addr (unix p) h = tt
  parse_tcp-IsAccepted addr (named_pipe n) h = ground arith
  parse_tcp-IsAccepted addr (tcp a) h = ground arith

  unix-IsAccepted :
      (p : Text) (e : Endpoint Addr)
      → ◌≡◌ {A = Outcome ParseError (Endpoint Addr)} (ok (unix p)) (ok e)
      → IsAccepted parse_addr is_loopback e
  unix-IsAccepted p (unix q) h = tt
  unix-IsAccepted p (named_pipe n) h = ground arith
  unix-IsAccepted p (tcp a) h = ground arith

  pub parse-IsAccepted :
      (input : Text) (e : Endpoint Addr)
      → parse parse_addr is_loopback input ≡ ok e
      → IsAccepted parse_addr is_loopback e
  unfolding parse
  parse-IsAccepted input e h = elim (Option-cases (strip_prefix (bytes "unix:") input)) [
    | inr (p, u) ↦ unix-IsAccepted p e (rw (u, parse) at h)
    | inl nu ↦ elim (Option-cases (strip_prefix (bytes "pipe:") input)) [
      | inr (n, q) ↦ parse_pipe-IsAccepted n e (rw (nu, q, parse) at h)
      | inl nq ↦ elim (Option-cases (strip_prefix (bytes "tcp:") input)) [
        | inr (a, t) ↦ parse_tcp-IsAccepted a e (rw (nu, nq, t, parse) at h)
        | inl nt ↦ unix-IsAccepted input e (rw (nu, nq, nt, parse) at h)
      ]
    ]
  ]

  parse_tcp-shown :
      (show_addr : Addr → Text) (a : Addr)
      → parse_addr (show_addr a) ≡ some a
      → is_loopback a ≡ true
      → parse_tcp parse_addr is_loopback (show_addr a) ≡ ok (tcp a)
  unfolding parse_tcp
  parse_tcp-shown show_addr a law h = rw (law, h, parse_tcp)

  parse-accepted :
      (show_addr : Addr → Text) (e : Endpoint Addr)
      → ((a : Addr) → parse_addr (show_addr a) ≡ some a)
      → IsAccepted parse_addr is_loopback e
      → parse parse_addr is_loopback (display_string show_addr e) ≡ ok e
  unfolding display_string parse strip_prefix parse_tcp
  parse-accepted show_addr (unix p) law h = refl
  parse-accepted show_addr (named_pipe n) law h = h
  parse-accepted show_addr (tcp a) law h = parse_tcp-shown show_addr a (law a) h

  -- What was parsed prints to a text that parses to it again, when the printer of addresses is one
  -- that their parser undoes.
  pub parse-display_string :
      (show_addr : Addr → Text) (input : Text) (e : Endpoint Addr)
      → ((a : Addr) → parse_addr (show_addr a) ≡ some a)
      → parse parse_addr is_loopback input ≡ ok e
      → parse parse_addr is_loopback (display_string show_addr e) ≡ ok e
  parse-display_string show_addr input e law h =
      parse-accepted show_addr e law (parse-IsAccepted input e h)
