-- ===== src/Sniff.antt =====
-- internal/sniff/sniff.go: the server name in the first bytes of a connection. A head and a name are
-- lists of bytes; lower case, TrimSpace and EqualFold against "host" are parameters.
pub mod Fuel
pub mod Final
use olcrtc.Prelude.{
  ℕ, zero, suc, ◌+◌, ◌-◌, ◌*◌, Bool, true, false, not, ◌&&◌, ◌||◌, List, [], ◌∷◌, ◌++◌, Option,
  none, some, length, take, drop, ltb, leb, ◌==◌, if◌then◌else◌,
}
use olcrtc.Prelude.Maps.{bytes_eq}
use olcrtc.Bytes.{byte_at, slice}

abbrev pub max_head : ℕ
max_head = 16 * 1024 + 5

abbrev pub tls_record_header : ℕ
tls_record_header = 5

abbrev pub tls_handshake : ℕ
tls_handshake = 0x16

abbrev pub tls_max_record : ℕ
tls_max_record = 16 * 1024

-- The bytes of a cursor from its offset on, and whether a read was short.
pub record Cursor : Type 0 where
  pub left : List ℕ
  pub bad : Bool

abbrev pub cursor_on : List ℕ → Cursor
cursor_on bytes = record { left = bytes; bad = false }

-- A short read gives nothing.
abbrev pub take_bytes : Cursor → ℕ → List ℕ × Cursor
take_bytes c n =
    if c.bad || ltb (length c.left) n
    then ([], record c { bad = true })
    else (take n c.left, record c { left = drop n c.left })

abbrev pub take_u8 : Cursor → ℕ × Cursor
take_u8 c = let (v, c') = take_bytes c 1 in (byte_at v 0, c')

abbrev pub take_u16 : Cursor → ℕ × Cursor
take_u16 c = let (v, c') = take_bytes c 2 in (byte_at v 0 * 256 + byte_at v 1, c')

abbrev pub skip : Cursor → ℕ → Cursor
skip c n = (take_bytes c n).1

-- A field with its length before it, in one byte and in two.
abbrev pub take_field8 : Cursor → List ℕ × Cursor
take_field8 c = let (n, c') = take_u8 c in take_bytes c' n

abbrev pub take_field16 : Cursor → List ℕ × Cursor
take_field16 c = let (n, c') = take_u16 c in take_bytes c' n

abbrev pub is_done : Cursor → Bool
is_done c = c.bad || length c.left == 0

-- "\r\n\r\n".
abbrev pub headers_end : List ℕ
headers_end = 13 ∷ 10 ∷ 13 ∷ 10 ∷ []

-- "GET ", "POST ", "PUT ", "HEAD ", "DELETE ", "OPTIONS ", "PATCH ", "CONNECT " and "TRACE ".
abbrev pub http_methods : List (List ℕ)
http_methods =
    (71 ∷ 69 ∷ 84 ∷ 32 ∷ [])
    ∷ (80 ∷ 79 ∷ 83 ∷ 84 ∷ 32 ∷ [])
    ∷ (80 ∷ 85 ∷ 84 ∷ 32 ∷ [])
    ∷ (72 ∷ 69 ∷ 65 ∷ 68 ∷ 32 ∷ [])
    ∷ (68 ∷ 69 ∷ 76 ∷ 69 ∷ 84 ∷ 69 ∷ 32 ∷ [])
    ∷ (79 ∷ 80 ∷ 84 ∷ 73 ∷ 79 ∷ 78 ∷ 83 ∷ 32 ∷ [])
    ∷ (80 ∷ 65 ∷ 84 ∷ 67 ∷ 72 ∷ 32 ∷ [])
    ∷ (67 ∷ 79 ∷ 78 ∷ 78 ∷ 69 ∷ 67 ∷ 84 ∷ 32 ∷ [])
    ∷ (84 ∷ 82 ∷ 65 ∷ 67 ∷ 69 ∷ 32 ∷ [])
    ∷ []

unfoldable pub starts_with : List ℕ → List ℕ → Bool
starts_with bytes [] = true
starts_with [] (p ∷ ps) = false
starts_with (b ∷ bs) (p ∷ ps) = let later = starts_with bs ps in if b == p then later else false

-- bytes.Index.
unfoldable pub index_of : List ℕ → List ℕ → Option ℕ
index_of [] sub = if starts_with [] sub then some 0 else none
index_of (b ∷ bs) sub =
    let later : Option ℕ = elim (index_of bs sub) [ none ↦ none | some i ↦ some (suc i) ] in
    if starts_with (b ∷ bs) sub then some 0 else later

-- Whether the head could still become a request, and whether it is one.
unfoldable pub http_method : List (List ℕ) → Bool → List ℕ → Bool × Bool
http_method [] partial head = (partial, false)
http_method (m ∷ ms) partial head =
    let open_one = partial || ltb (length head) (length m) && starts_with m head in
    let later = http_method ms open_one head in if starts_with head m then (false, true) else later

-- What stands before the first byte of this value, and what behind it.
unfoldable pub cut_at : ℕ → List ℕ → Option (List ℕ × List ℕ)
cut_at c [] = none
cut_at c (b ∷ bs) =
    let later : Option (List ℕ × List ℕ) = elim (cut_at c bs) [
      | none ↦ none
      | some (x, y) ↦ some (b ∷ x, y)
    ] in
    if b == c then some ([], bs) else later

unfoldable pub count_of : ℕ → List ℕ → ℕ
count_of c [] = 0
count_of c (b ∷ bs) = let rest = count_of c bs in if b == c then suc rest else rest

-- bytes.SplitSeq at "\r\n": the line so far, then the others.
unfoldable pub split_lines : List ℕ → List ℕ → List (List ℕ)
split_lines line [] = line ∷ []
split_lines line (b ∷ []) = (line ++ b ∷ []) ∷ []
split_lines line (b ∷ c ∷ bs) =
    let ended = line ∷ split_lines [] bs in
    let longer = split_lines (line ++ b ∷ []) (c ∷ bs) in
    if b == 13 && c == 10 then ended else longer

pub record Text : Type 0 where
  pub to_lower : List ℕ → List ℕ
  pub trim_space : List ℕ → List ℕ
  pub is_host : List ℕ → Bool

module _ (text : Text) where
  -- A turn of the loop of serverNameList, with what the turns behind it give.
  unfoldable pub name_turn : Cursor → List ℕ → List ℕ
  name_turn c rest =
      let (typ, c1) = take_u8 c in
      let (name, c2) = take_field16 c1 in
      if is_done c
      then []
      else if c2.bad
      then []
      else if typ == 0 && ltb 0 (length name)
      then text.to_lower name
      else rest

  unfoldable pub name_loop : ℕ → Cursor → List ℕ
  name_loop zero c = []
  name_loop (suc fuel) c = name_turn c (name_loop fuel (take_field16 (take_u8 c).1).1)

  abbrev pub server_name_list : List ℕ → List ℕ
  server_name_list bytes =
      let names = (take_field16 (cursor_on bytes)).0 in
      name_loop (suc (length names)) (cursor_on names)

  -- A turn of the loop over the extensions.
  unfoldable pub extension_turn : Cursor → List ℕ → List ℕ
  extension_turn c rest =
      let (typ, c1) = take_u16 c in
      let (ext, c2) = take_field16 c1 in
      if is_done c
      then []
      else if c2.bad
      then []
      else if typ == 0
      then server_name_list ext
      else rest

  unfoldable pub extension_loop : ℕ → Cursor → List ℕ
  extension_loop zero c = []
  extension_loop (suc fuel) c =
      extension_turn c (extension_loop fuel (take_field16 (take_u16 c).1).1)

  -- Behind version and random: the session id, the cipher suites, the compression methods.
  unfoldable pub client_hello_server_name : List ℕ → List ℕ
  client_hello_server_name hello =
      let c1 = (take_field8 (skip (cursor_on hello) 34)).1 in
      let c2 = (take_field16 c1).1 in
      let c3 = (take_field8 c2).1 in
      let exts = (take_field16 c3).0 in extension_loop (suc (length exts)) (cursor_on exts)

  -- The body of the one record.
  unfoldable pub hello_of : List ℕ → List ℕ
  hello_of body =
      let hello = byte_at body 1 * 65536 + byte_at body 2 * 256 + byte_at body 3 in
      if ltb (length body) 4 || not (byte_at body 0 == 1)
      then []
      else if ltb (length body - 4) hello
      then []
      else client_hello_server_name (slice body 4 (4 + hello))

  -- With whether the answer is still open.
  unfoldable pub tls_server_name : List ℕ → List ℕ × Bool
  tls_server_name head =
      let size = byte_at head 3 * 256 + byte_at head 4 in
      if ltb (length head) tls_record_header
      then ([], true)
      else if not (byte_at head 1 == 3)
      then ([], false)
      else if size == 0 || ltb tls_max_record size
      then ([], false)
      else if ltb (length head) (tls_record_header + size)
      then ([], true)
      else (hello_of (take size (drop tls_record_header head)), false)

  -- "[" and "]" are 91 and 93, ":" is 58.
  abbrev pub in_brackets : Option (List ℕ × List ℕ) → List ℕ
  in_brackets none = []
  in_brackets (some (inner, rest)) = text.to_lower inner

  abbrev pub before_port : List ℕ → Option (List ℕ × List ℕ) → List ℕ
  before_port host none = host
  before_port host (some (name, port)) = name

  unfoldable pub host_without_port : List ℕ → List ℕ
  host_without_port host =
      if starts_with host (91 ∷ [])
      then in_brackets (cut_at 93 (drop 1 host))
      else text.to_lower (if count_of 58 host == 1 then before_port host (cut_at 58 host) else host)

  abbrev pub is_host_header : Option (List ℕ × List ℕ) → Bool
  is_host_header none = false
  is_host_header (some (name, value)) = text.is_host (text.trim_space name)

  abbrev pub header_value : Option (List ℕ × List ℕ) → List ℕ
  header_value none = []
  header_value (some (name, value)) = host_without_port (text.trim_space value)

  unfoldable pub find_host : List (List ℕ) → List ℕ
  find_host [] = []
  find_host (line ∷ lines) =
      let later = find_host lines in
      if is_host_header (cut_at 58 line) then header_value (cut_at 58 line) else later

  abbrev pub headed : List ℕ → Option ℕ → List ℕ × Bool
  headed head none = ([], ltb (length head) max_head)
  headed head (some end) = (find_host (split_lines [] (take end head)), false)

  unfoldable pub http_host : List ℕ → Bool → List ℕ × Bool
  http_host head complete =
      if not complete then ([], true) else headed head (index_of head headers_end)

  abbrev pub requested : List ℕ → Bool × Bool → List ℕ × Bool
  requested head (partial, complete) =
      if complete || partial then http_host head complete else ([], false)

  unfoldable pub host : List ℕ → List ℕ × Bool
  host head =
      if length head == 0
      then ([], true)
      else if byte_at head 0 == tls_handshake
      then tls_server_name head
      else requested head (http_method http_methods false head)
