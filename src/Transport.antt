-- ===== src/Transport.antt =====
-- `Endpoint` of meridian-relay/src/daemon/transport.rs in its unix build. The socket addresses of
-- the standard library, their parser, printer and loopback test are parameters. A path is its text.
pub mod Endpoints
use ius.Base.{
  ℕ, Bool, true, false, not, ◌&&◌, ◌||◌, Option, none, some, List, [], ◌∷◌, ◌++◌, ltb, nat_eq,
  if◌then◌else◌, is_empty, any, Outcome, ok, err, String,
}
use ius.Base.Strings.{Text, str_len, is_control, strip_prefix, contains_char, contains_dots}
use ius.Base.Texts.{bytes}

pub data Endpoint (Addr : Type 0) : Type 0 where
  unix : Text → Endpoint Addr
  named_pipe : Text → Endpoint Addr
  tcp : Addr → Endpoint Addr

pub data ParseError : Type 0 where
  invalid_pipe_name invalid_tcp_endpoint : Text → ParseError
  tcp_not_loopback : ParseError

unfoldable pub parse_pipe : {Addr : Type 0} → Text → Outcome ParseError (Endpoint Addr)
unfolding contains_char contains_dots
parse_pipe name =
    if is_empty name
      || ltb 256 (str_len name)
      || contains_char 47 name
      || contains_char 92 name
      || contains_dots name
      || any is_control name
    then err (invalid_pipe_name name)
    else ok (named_pipe name)

module _ {Addr : Type 0} (parse_addr : Text → Option Addr) (is_loopback : Addr → Bool) where
  unfoldable pub parse_tcp : Text → Outcome ParseError (Endpoint Addr)
  parse_tcp addr = elim (parse_addr addr) [
    | none ↦ err (invalid_tcp_endpoint addr)
    | some a ↦ if not (is_loopback a) then err tcp_not_loopback else ok (tcp a)
  ]

  unfoldable pub parse : Text → Outcome ParseError (Endpoint Addr)
  unfolding parse_pipe parse_tcp strip_prefix
  parse input = elim (strip_prefix (bytes "unix:") input) [
    | some rest ↦ ok (unix rest)
    | none ↦ elim (strip_prefix (bytes "pipe:") input) [
      | some rest ↦ parse_pipe rest
      | none ↦ elim (strip_prefix (bytes "tcp:") input) [
        | some rest ↦ parse_tcp rest
        | none ↦ ok (unix input)
      ]
    ]
  ]

unfoldable pub display_string : {Addr : Type 0} → (Addr → Text) → Endpoint Addr → Text
display_string show_addr (unix p) = bytes "unix:" ++ p
display_string show_addr (named_pipe n) = bytes "pipe:" ++ n
display_string show_addr (tcp a) = bytes "tcp:" ++ show_addr a
