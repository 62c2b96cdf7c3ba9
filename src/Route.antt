-- ===== src/Route.antt =====
-- internal/route/route.go: which destinations are dialled directly. A name or a line is the list of its
-- bytes; an address is its family and its value, and what netip's text parsers accept is a parameter.
pub mod Ranges
pub mod Names
use olcrtc.Prelude.{
  ℕ, zero, suc, ◌+◌, ◌-◌, ◌*◌, ◌/◌, ◌%◌, ◌^◌, Bool, true, false, not, ◌&&◌, ◌||◌, List, [], ◌∷◌,
  ◌++◌, Option, none, some, length, take, drop, map, ltb, leb, ◌==◌, if◌then◌else◌,
}
use olcrtc.Prelude.Maps.{bytes_eq, is_in}
use olcrtc.Prelude.Results.{Result, ok, err}

-- netip.Addr: the zero Addr, an IPv4 address, an IPv6 address with its zone.
pub data Addr : Type 0 where
  no_addr : Addr
  v4 : ℕ → Addr
  v6 : ℕ → List ℕ → Addr

-- The place of an address without a zone in the order of Compare: the zero Addr, then the shorter
-- addresses.
unfoldable pub rank : Addr → ℕ
rank no_addr = 0
rank (v4 n) = 1 + n
rank (v6 n zone) = 1 + 2 ^ 32 + n

-- Next: the zero Addr behind the last address of a family.
unfoldable pub next : Addr → Addr
next no_addr = no_addr
next (v4 n) = if n + 1 == 2 ^ 32 then no_addr else v4 (n + 1)
next (v6 n zone) = if n + 1 == 2 ^ 128 then no_addr else v6 (n + 1) zone

abbrev pub without_zone : Addr → Addr
without_zone (v6 n zone) = v6 n []
without_zone a = a

-- Unmap: ::ffff:a.b.c.d is a.b.c.d.
abbrev pub unmap : Addr → Addr
unmap (v6 n zone) = if n / 2 ^ 32 == 0xffff then v4 (n % 2 ^ 32) else v6 n zone
unmap a = a

abbrev pub is_valid : Addr → Bool
is_valid no_addr = false
is_valid _ = true

pub record AddrRange : Type 0 where
  pub lo : Addr
  pub hi : Addr

-- A set of names is the list of them.
pub record Rules : Type 0 where
  pub full : List (List ℕ)
  pub suffix : List (List ℕ)
  pub ranges : List AddrRange
  pub names : ℕ
  pub prefixes : ℕ

-- slices.SortFunc by the low end.
unfoldable pub insert_range : AddrRange → List AddrRange → List AddrRange
insert_range r [] = r ∷ []
insert_range r (s ∷ rs) =
    let later = insert_range r rs in if leb (rank r.lo) (rank s.lo) then r ∷ s ∷ rs else s ∷ later

unfoldable pub sort_ranges : List AddrRange → List AddrRange
sort_ranges [] = []
sort_ranges (r ∷ rs) = insert_range r (sort_ranges rs)

-- Overlapping or adjacent: the second starts within the first or right behind it.
unfoldable pub joins : AddrRange → AddrRange → Bool
joins last cur = leb (rank cur.lo) (rank last.hi) || rank cur.lo == rank (next last.hi)

unfoldable pub joined : AddrRange → AddrRange → AddrRange
joined last cur = if ltb (rank last.hi) (rank cur.hi) then record last { hi = cur.hi } else last

-- The loop of mergeRanges: `last` is the last range put out so far.
unfoldable pub merge_from : AddrRange → List AddrRange → List AddrRange
merge_from last [] = last ∷ []
merge_from last (cur ∷ rs) =
    let grown = merge_from (joined last cur) rs in
    let apart = last ∷ merge_from cur rs in if joins last cur then grown else apart

abbrev pub merge_sorted : List AddrRange → List AddrRange
merge_sorted [] = []
merge_sorted (r ∷ rs) = merge_from r rs

unfoldable pub merge_ranges : List AddrRange → List AddrRange
merge_ranges rs = merge_sorted (sort_ranges rs)

-- slices.BinarySearchFunc on ranges in order: the first place whose low end is not below the address.
unfoldable pub search_range : List AddrRange → Addr → ℕ
search_range [] ip = 0
search_range (r ∷ rs) ip =
    let later = search_range rs ip in if ltb (rank r.lo) (rank ip) then suc later else 0

unfoldable pub range_at : List AddrRange → ℕ → Option AddrRange
range_at [] n = none
range_at (r ∷ rs) zero = some r
range_at (r ∷ rs) (suc n) = range_at rs n

abbrev pub starts_at : Addr → Option AddrRange → Bool
starts_at ip none = false
starts_at ip (some r) = rank r.lo == rank ip

abbrev pub ends_behind : Addr → Option AddrRange → Bool
ends_behind ip none = false
ends_behind ip (some r) = leb (rank ip) (rank r.hi)

-- What MatchIP asks at the place found and before it.
abbrev pub in_at : List AddrRange → Addr → ℕ → Bool
in_at rs ip idx =
    if starts_at ip (range_at rs idx)
    then true
    else if idx == 0
    then false
    else ends_behind ip (range_at rs (idx - 1))

unfoldable pub in_ranges : List AddrRange → Addr → Bool
in_ranges rs ip = in_at rs ip (search_range rs ip)

-- A nil *Rules is none.
unfoldable pub match_ip : Option Rules → Addr → Bool
match_ip none ip = false
match_ip (some r) ip = if is_valid ip then in_ranges r.ranges (without_zone (unmap ip)) else false

unfoldable pub cut_dot : List ℕ → Option (List ℕ)
cut_dot [] = none
cut_dot (c ∷ cs) = let later = cut_dot cs in if c == 46 then some cs else later

-- The loop of MatchDomain: the name, then what stands behind its first dot.
unfoldable pub under_suffix : ℕ → List (List ℕ) → List ℕ → Bool
under_suffix zero suffix name = false
under_suffix (suc fuel) suffix name =
    if is_in name suffix
    then true
    else elim (cut_dot name) [ none ↦ false | some parent ↦ under_suffix fuel suffix parent ]

abbrev pub is_space : ℕ → Bool
is_space c = c == 32 || c == 9

unfoldable pub has_space : List ℕ → Bool
has_space [] = false
has_space (c ∷ cs) = is_space c || has_space cs

unfoldable pub has_prefix : List ℕ → List ℕ → Bool
has_prefix bytes [] = true
has_prefix [] (p ∷ ps) = false
has_prefix (b ∷ bs) (p ∷ ps) = let later = has_prefix bs ps in if b == p then later else false

-- The byte is dropped when it stands last.
unfoldable pub trim_last : List ℕ → ℕ → List ℕ
trim_last [] c = []
trim_last (b ∷ []) c = if b == c then [] else b ∷ []
trim_last (b ∷ d ∷ bs) c = b ∷ trim_last (d ∷ bs) c

abbrev pub trim_first : List ℕ → ℕ → List ℕ
trim_first [] c = []
trim_first (b ∷ bs) c = if b == c then bs else b ∷ bs

-- "domain:" and "full:".
abbrev pub prefix_domain : List ℕ
prefix_domain = 100 ∷ 111 ∷ 109 ∷ 97 ∷ 105 ∷ 110 ∷ 58 ∷ []

abbrev pub prefix_full : List ℕ
prefix_full = 102 ∷ 117 ∷ 108 ∷ 108 ∷ 58 ∷ []

-- "#".
abbrev pub comment_mark : List ℕ
comment_mark = 35 ∷ []

pub data RuleError : Type 0 where
  empty_name name_space not_a_rule : RuleError

-- What strings and netip do with text: white space cut on both sides, lower case, an address, and a
-- prefix as its masked address with the last one that it holds.
pub record Text : Type 0 where
  pub trim_space : List ℕ → List ℕ
  pub to_lower : List ℕ → List ℕ
  pub parse_addr : List ℕ → Option Addr
  pub parse_prefix : List ℕ → Option AddrRange

abbrev pub no_rules : Rules
no_rules = record { full = []; suffix = []; ranges = []; names = 0; prefixes = 0 }

module _ (text : Text) where
  abbrev pub normalize_name : List ℕ → List ℕ
  normalize_name name = text.to_lower (trim_last (text.trim_space name) 46)

  -- MatchDomain of a clean name.
  unfoldable pub match_name : Rules → List ℕ → Bool
  match_name r name =
      if bytes_eq.beq name []
      then false
      else if is_in name r.full
      then true
      else under_suffix (suc (length name)) r.suffix name

  unfoldable pub match_domain : Option Rules → List ℕ → Bool
  match_domain none name = false
  match_domain (some r) name = match_name r (normalize_name name)

  unfoldable pub match_host : Option Rules → List ℕ → Bool
  unfolding match_ip match_domain
  match_host none host = false
  match_host (some r) host = elim (text.parse_addr (trim_last (trim_first host 91) 93)) [
    | some ip ↦ match_ip (some r) ip
    | none ↦ match_domain (some r) host
  ]

  -- addName checks the name and gives it back; its callers put it in their set.
  unfoldable pub checked_name : List ℕ → Result RuleError (List ℕ)
  checked_name raw =
      let name = normalize_name raw in
      if bytes_eq.beq name []
      then err empty_name
      else if has_space name
      then err name_space
      else ok name

  abbrev pub added_suffix : Rules → Result RuleError (List ℕ) → Result RuleError Rules
  added_suffix r (err e) = err e
  added_suffix r (ok name) = ok (record r { suffix = name ∷ r.suffix; names = r.names + 1 })

  abbrev pub added_full : Rules → Result RuleError (List ℕ) → Result RuleError Rules
  added_full r (err e) = err e
  added_full r (ok name) = ok (record r { full = name ∷ r.full; names = r.names + 1 })

  abbrev pub add_range : Rules → AddrRange → Rules
  add_range r range = record r { ranges = r.ranges ++ range ∷ []; prefixes = r.prefixes + 1 }

  -- The last two attempts of add: a prefix, then an address.
  abbrev pub added_address : Rules → Option AddrRange → Option Addr → Result RuleError Rules
  added_address r (some range) addr = ok (add_range r range)
  added_address r none (some addr) =
      ok (add_range r (record { lo = without_zone addr; hi = without_zone addr }))
  added_address r none none = err not_a_rule

  unfoldable pub add_rule : Rules → List ℕ → Result RuleError Rules
  unfolding checked_name
  add_rule r line =
      if has_prefix line prefix_domain
      then added_suffix r (checked_name (drop 7 line))
      else if has_prefix line prefix_full
      then added_full r (checked_name (drop 5 line))
      else added_address r (text.parse_prefix line) (text.parse_addr line)

  abbrev pub numbered : ℕ → Result RuleError Rules → Result (ℕ × RuleError) Rules
  numbered n (err e) = err (n, e)
  numbered n (ok r) = ok r

  -- One line of Parse, trimmed: a blank one and a comment are skipped, an error names its line.
  unfoldable pub parse_line : ℕ → Rules → List ℕ → Result (ℕ × RuleError) Rules
  unfolding add_rule
  parse_line n r line =
      if bytes_eq.beq line [] || has_prefix line comment_mark
      then ok r
      else numbered n (add_rule r line)

  unfoldable pub parse_lines :
      ℕ → List (List ℕ) → Result (ℕ × RuleError) Rules → Result (ℕ × RuleError) Rules
  parse_lines n [] state = state
  parse_lines n (raw ∷ lines) (err e) = err e
  parse_lines n (raw ∷ lines) (ok r) =
      parse_lines (n + 1) lines (parse_line n r (text.trim_space raw))

  abbrev pub finished : Result (ℕ × RuleError) Rules → Result (ℕ × RuleError) (Option Rules)
  finished (err e) = err e
  finished (ok r) =
      if r.names == 0 && r.prefixes == 0
      then ok none
      else ok (some (record r { ranges = merge_ranges r.ranges }))

  -- Parse of the lines of a text.
  unfoldable pub parse : List (List ℕ) → Result (ℕ × RuleError) (Option Rules)
  unfolding parse_lines
  parse lines = finished (parse_lines 1 lines (ok no_rules))
