-- ===== src/Sniff/Final.antt =====
-- An answer that is not open is final: internal/sniff/sniff.go, Host.
use olcrtc.Prelude.{
  ℕ, zero, suc, ◌+◌, ◌*◌, ◌≤◌, ◌<◌, ◌≡◌, refl, ap, ◌∙◌, inl, inr, Bool, true, false, Bool-cases,
  ◌&&◌, ◌||◌, List, [], ◌∷◌, ◌++◌, some, Option-cases, length, get_or, take, drop, length-append,
  length-drop, arith, ltb, ◌==◌,
}
use olcrtc.Bytes.{byte_at}
use olcrtc.Sniff.{
  Text, max_head, headers_end, http_methods, starts_with, index_of, http_method, tls_server_name,
  http_host, requested, host, find_host, split_lines,
}

get_or-append : (xs ys : List ℕ) (i : ℕ) → i < length xs → get_or (xs ++ ys) i 0 ≡ get_or xs i 0
get_or-append [] ys i h = ground arith
get_or-append (x ∷ xs) ys zero h = refl
get_or-append (x ∷ xs) ys (suc i) h = get_or-append xs ys i (omega arith)

take-append : (n : ℕ) (xs ys : List ℕ) → n ≤ length xs → take n (xs ++ ys) ≡ take n xs
take-append zero xs ys h = refl
take-append (suc n) [] ys h = ground arith
take-append (suc n) (x ∷ xs) ys h = ap (λ zs. x ∷ zs) (take-append n xs ys (omega arith))

drop-append : (n : ℕ) (xs ys : List ℕ) → n ≤ length xs → drop n (xs ++ ys) ≡ drop n xs ++ ys
drop-append zero xs ys h = refl
drop-append (suc n) [] ys h = ground arith
drop-append (suc n) (x ∷ xs) ys h = drop-append n xs ys (omega arith)

starts_with-append : (xs ys p : List ℕ) → starts_with xs p ≡ true → starts_with (xs ++ ys) p ≡ true
unfolding starts_with
starts_with-append xs ys [] h = ground arith
starts_with-append [] ys (q ∷ p) h = ground (arith, h)
starts_with-append (x ∷ xs) ys (q ∷ p) h = ground (arith, starts_with-append xs ys p, h)

-- A head that does not begin with a text, and is not the beginning of it, decides for all that follows.
starts_with_never :
    (xs ys p : List ℕ)
    → starts_with xs p ≡ false
    → (ltb (length xs) (length p) && starts_with p xs) ≡ false
    → (starts_with (xs ++ ys) p ≡ false) × (starts_with p (xs ++ ys) ≡ false)
unfolding starts_with
starts_with_never xs ys [] h k = ground (arith, h)
starts_with_never [] ys (q ∷ p) h k = ground (arith, k)
starts_with_never (x ∷ xs) ys (q ∷ p) h k = ground (arith, starts_with_never xs ys p, h, k)

starts_with-length : (xs p : List ℕ) → starts_with xs p ≡ true → length p ≤ length xs
unfolding starts_with
starts_with-length xs [] h = omega arith
starts_with-length [] (q ∷ p) h = ground (arith, h)
starts_with-length (x ∷ xs) (q ∷ p) h = ground (arith, starts_with-length xs p, h)

http_method_partial :
    (ms : List (List ℕ)) (head : List ℕ)
    → ((http_method ms true head).0 || (http_method ms true head).1) ≡ true
unfolding http_method
http_method_partial [] head = refl
http_method_partial (m ∷ ms) head = ground (arith, http_method_partial ms head)

-- A head that is no request and cannot become one stays so.
http_method_never :
    (ms : List (List ℕ)) (partial : Bool) (head more : List ℕ)
    → ((http_method ms partial head).0 || (http_method ms partial head).1) ≡ false
    → http_method ms partial (head ++ more) ≡ (false, false)
unfolding http_method
http_method_never [] partial head more h = ground (arith, h)
http_method_never (m ∷ ms) partial head more h =
    let possible = ltb (length head) (length m) && starts_with m head in
    elim (Bool-cases (starts_with head m)) [
      | inl complete ↦ ground (arith, rw complete at h)
      | inr no_match ↦ elim (Bool-cases (partial || possible)) [
        | inl started ↦ ground (arith, rw (no_match, started) at h, http_method_partial ms head)
        | inr never ↦
            let so_far : partial ≡ false = ground (arith, never) in
            let far = starts_with_never head more m no_match (ground (arith, never)) in
            let longer : (partial
                  || ltb (length (head ++ more)) (length m) && starts_with m (head ++ more))
                ≡ false =
              ground (arith, so_far, far.1) in
            rw (far.0, longer) (http_method_never ms false head more (rw (no_match, never) at h))
      ]
    ]

-- One that is a request stays one.
http_method_complete :
    (ms : List (List ℕ)) (a b : Bool) (head more : List ℕ)
    → (http_method ms a head).1 ≡ true
    → (http_method ms b (head ++ more)).1 ≡ true
unfolding http_method
http_method_complete [] a b head more h = h
http_method_complete (m ∷ ms) a b head more h = elim (Bool-cases (starts_with head m)) [
  | inl complete ↦ rw (starts_with-append head more m complete) refl
  | inr other ↦
      let rest =
        http_method_complete ms (a || ltb (length head) (length m) && starts_with m head)
          (b || ltb (length (head ++ more)) (length m) && starts_with m (head ++ more)) head more
          (rw other at h) in
      ground (arith, rest)
]

starts_with_inside :
    (xs ys p : List ℕ) → length p ≤ length xs → starts_with (xs ++ ys) p ≡ starts_with xs p
unfolding starts_with
starts_with_inside xs ys [] h = ground arith
starts_with_inside [] ys (q ∷ p) h = ground (arith, h)
starts_with_inside (x ∷ xs) ys (q ∷ p) h = ground (arith, h, starts_with_inside xs ys p)

-- The first place of a text stays the first, when more bytes come.
index_of-append :
    (xs ys sub : List ℕ) (i : ℕ)
    → 1 ≤ length sub
    → index_of xs sub ≡ some i
    → (index_of (xs ++ ys) sub ≡ some i) × (i + length sub ≤ length xs)
unfolding index_of
index_of-append [] ys sub i long h = ground (arith, h, long, starts_with-length [] sub)
index_of-append (x ∷ xs) ys sub i long h = elim (Bool-cases (starts_with (x ∷ xs) sub)) [
  | inl here ↦
      let still = starts_with-append (x ∷ xs) ys sub here in
      ground (arith, here, still, h, starts_with-length (x ∷ xs) sub here)
  | inr later ↦ elim (Option-cases (index_of xs sub)) [
    | inl nowhere ↦ ground (arith, later, nowhere, h)
    | inr (j, found) ↦
        let rest = index_of-append xs ys sub j long found in
        let still = starts_with_inside (x ∷ xs) ys sub (omega (arith, rest.1)) in
        ground (arith, later, found, rest, still, h)
  ]
]

-- The body of a record that has arrived whole.
record_body :
    (size : ℕ) (head more : List ℕ)
    → 5 + size ≤ length head
    → take size (drop 5 (head ++ more)) ≡ take size (drop 5 head)
record_body size head more h =
    ap (take size) (drop-append 5 head more (omega arith))
    ∙ take-append size (drop 5 head) more (omega (arith, length-drop 5 head))

-- The answer about a TLS record that has arrived whole, or is none, is final.
tls_server_name-append :
    (text : Text) (head more : List ℕ)
    → (tls_server_name text head).1 ≡ false
    → tls_server_name text (head ++ more) ≡ tls_server_name text head
unfolding tls_server_name
tls_server_name-append text head more h = ground (
  arith,
  h,
  get_or-append head more 1,
  get_or-append head more 3,
  get_or-append head more 4,
  length-append head more,
  record_body (get_or head 3 0 * 256 + get_or head 4 0) head more,
)

-- An HTTP head that has its headers whole, or is too long.
http_host-append :
    (text : Text) (head more : List ℕ)
    → length head < max_head
    → (http_host text head true).1 ≡ false
    → http_host text (head ++ more) true ≡ http_host text head true
unfolding http_host
http_host-append text head more short h = elim (Option-cases (index_of head headers_end)) [
  | inl nowhere ↦ ground (arith, short, rw nowhere at h)
  | inr (i, found) ↦
      let still = index_of-append head more headers_end i omega arith found in
      rw (found, still.0)
        (ap (λ b. (find_host text (split_lines [] b), false))
          (take-append i head more (omega (arith, still.1))))
]

http_host_open : (text : Text) (head : List ℕ) → http_host text head false ≡ ([], true)
unfolding http_host
http_host_open text head = refl

requested-append :
    (text : Text) (ms : List (List ℕ)) (head more : List ℕ)
    → length head < max_head
    → (requested text head (http_method ms false head)).1 ≡ false
    → requested text (head ++ more) (http_method ms false (head ++ more))
      ≡ requested text head (http_method ms false head)
requested-append text ms head more short h =
    let r = http_method ms false head in
    elim (Bool-cases r.1) [
      | inl complete ↦
          let still = http_method_complete ms false false head more complete in
          rw (complete, still) (http_host-append text head more short (rw complete at h))
      | inr unfinished ↦ elim (Bool-cases r.0) [
        | inl possible ↦ ground (arith, rw (unfinished, possible) at h, http_host_open text head)
        | inr never ↦
            let nothing : (r.0 || r.1) ≡ false = rw (unfinished, never) refl in
            rw (unfinished, never, http_method_never ms false head more nothing) refl
      ]
    ]

-- An answer that Host does not call open is final while the caller may read more: with any bytes
-- behind the same head it stays what it is.
pub host-append :
    (text : Text) (head more : List ℕ)
    → length head < max_head
    → (host text head).1 ≡ false
    → host text (head ++ more) ≡ host text head
unfolding host
host-append text head more short h =
    let methods = http_methods in
    let asked = requested-append text methods head more short in
    elim (Bool-cases (length head == 0)) [
      | inl empty ↦ ground (arith, rw empty at h)
      | inr some_bytes ↦
          let longer : length (head ++ more) == 0 ≡ false =
            ground (arith, length-append head more, some_bytes) in
          let first = get_or-append head more 0 (ground (arith, some_bytes)) in
          elim (Bool-cases (byte_at head 0 == 0x16)) [
            | inl tls ↦
                rw (longer, first, some_bytes, tls)
                  (tls_server_name-append text head more (rw (some_bytes, tls) at h))
            | inr other ↦
                rw (longer, first, some_bytes, other) (asked (rw (some_bytes, other) at h))
          ]
    ]
