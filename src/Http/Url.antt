-- ===== src/Http/Url.antt =====
-- lib-sxe-http/sxe-http-url.c: the parts of a URL.
mod Tests
use libsxe.Base.{
  ℕ, zero, suc, ◌+◌, ◌-◌, ◌*◌, ◌%◌, ◌^◌, ◌≤◌, ◌<◌, ◌≡◌, refl, Bool, true, false, not, ◌||◌, ◌&&◌,
  List, [], ◌∷◌, Option, none, some, ◌==◌, ltb, leb, if◌then◌else◌, arith, get_or, drop, length,
}

-- A substring of the input: its offset and its length. The NULL pointer of a part that is not there is 0.
pub record Part : Type 0 where
  pub start : ℕ
  pub extent : ℕ

-- struct SXE_HTTP_URL
pub record HttpUrl : Type 0 where
  pub scheme : Part
  pub host : Part
  pub port : ℕ
  pub port_length : ℕ
  pub path : Part

-- `string` is what can be read, and `maximum` is `string_maximum_length`; behind the list are NULs.
abbrev at : List ℕ → ℕ → ℕ
at string idx = get_or string idx 0

-- The scheme loop with `n` bytes left to the limit, from `idx` on: where the colon is. `none` is the
-- end of the text, or a colon at its start.
unfoldable pub scheme_loop : ℕ → List ℕ → ℕ → Option ℕ
scheme_loop zero string idx = none
scheme_loop (suc n) [] idx = none
scheme_loop (suc n) (c ∷ string) idx =
    let rest = scheme_loop n string (idx + 1) in
    if c == 0 then none else if c == b':' then (if idx == 0 then none else some idx) else rest

-- The host name loop: how far it goes.
unfoldable pub host_loop : ℕ → List ℕ → ℕ
host_loop zero string = 0
host_loop (suc n) [] = 0
host_loop (suc n) (c ∷ string) =
    let rest = suc (host_loop n string) in if c == 0 || (c == b':' || c == b'/') then 0 else rest

-- Whether a `char` is a digit.
unfoldable pub digit : ℕ → Bool
digit c = leb b'0' c && leb c b'9'

-- The port loop: how far it goes, and the port behind `port`.
unfoldable pub port_loop : ℕ → List ℕ → ℕ → ℕ × ℕ
port_loop zero string port = (0, port)
port_loop (suc n) [] port = (0, port)
port_loop (suc n) (c ∷ string) port =
    let (more, port') = port_loop n string ((port * 10 + c + 2 ^ 32 - b'0') % 2 ^ 32) in
    if digit c then (suc more, port') else (0, port)

unfoldable pub path_of : ℕ → ℕ → Part
path_of string_length idx = record {
  start = idx;
  extent = if string_length == 0 then 0 else string_length - idx;
}

abbrev pub no_part : Part
no_part = record { start = 0; extent = 0 }

-- From the byte behind the host's end on, where that is a colon.
unfoldable pub parse_port : List ℕ → ℕ → ℕ → ℕ → HttpUrl → Option HttpUrl
parse_port string string_length maximum idx url =
    let (n, port) = port_loop (maximum - idx) (drop idx string) 0 in
    let with_port = record url { port = port; port_length = n + 1 } in
    if leb maximum idx || not (digit (at string idx))
    then none
    else if leb maximum (idx + n) || at string (idx + n) == 0
    then some with_port
    else if at string (idx + n) == b'/'
    then some (record with_port { path = path_of string_length (idx + n + 1) })
    else none

-- From the host's end on.
unfoldable pub parse_tail : List ℕ → ℕ → ℕ → ℕ → HttpUrl → Option HttpUrl
parse_tail string string_length maximum idx url =
    if leb maximum idx || at string idx == 0
    then some url
    else if at string idx == b':'
    then parse_port string string_length maximum (idx + 1) url
    else some (record url { path = path_of string_length (idx + 1) })

-- From the scheme's colon on.
unfoldable pub parse_host : List ℕ → ℕ → ℕ → ℕ → Option HttpUrl
parse_host string string_length maximum colon =
    let start = colon + 3 in
    let n = host_loop (maximum - start) (drop start string) in
    if leb maximum (colon + 2)
      || (not (at string (colon + 1) == b'/') || not (at string (colon + 2) == b'/'))
    then none
    else if n == 0
    then none
    else parse_tail string string_length maximum (start + n) (record {
      scheme = record { start = 0; extent = colon };
      host = record { start = start; extent = n };
      port = 0;
      port_length = 0;
      path = no_part;
    })

unfoldable pub url_parse : List ℕ → ℕ → Option HttpUrl
url_parse string string_length =
    let maximum = if string_length == 0 then 2 ^ 32 - 1 else string_length in
    elim (scheme_loop maximum string 0) [
      | none ↦ none
      | some colon ↦ parse_host string string_length maximum colon
    ]
