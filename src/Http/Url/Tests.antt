-- ===== src/Http/Url/Tests.antt =====
-- URLs and their parts.
use libsxe.Base.{ℕ, ◌≡◌, refl, List, [], ◌∷◌, some, none}
use libsxe.Http.Url.{
  scheme_loop, host_loop, digit, port_loop, path_of, parse_port, parse_tail, parse_host, url_parse,
}

-- "s://h:80/p"
abbrev url : List ℕ
url = b's' ∷ b':' ∷ b'/' ∷ b'/' ∷ b'h' ∷ b':' ∷ b'8' ∷ b'0' ∷ b'/' ∷ b'p' ∷ []

url_parts :
    url_parse url 10
    ≡ some (record {
      scheme = record { start = 0; extent = 1 };
      host = record { start = 4; extent = 1 };
      port = 80;
      port_length = 3;
      path = record { start = 9; extent = 1 };
    })
unfolding url_parse scheme_loop host_loop digit port_loop path_of parse_port parse_tail parse_host
url_parts = refl

cut_off : url_parse url 4 ≡ none
unfolding url_parse scheme_loop host_loop digit port_loop path_of parse_port parse_tail parse_host
cut_off = refl
