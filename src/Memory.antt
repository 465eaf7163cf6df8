-- ===== src/Memory.antt =====
-- Byte arrays as the C library's memcpy and memmove see them. An array is the list of its bytes;
-- an access that leaves it is a fault, `none`.
use regex_markup.Common.{
  ℕ, zero, suc, ◌+◌, ◌*◌, ◌≤◌, ◌≡◌, refl, ap, sym, ◌∙◌, List, [], ◌∷◌, ◌++◌, Option, none, some,
  arith, leb, le→leb, if◌then◌else◌, ◌>>=◌, length, take, drop, repeat, length-append, length-take,
  length-drop, take-append-drop, take-append, drop-append, append_assoc, subst,
}

-- Overwrite the bytes from position `i` on.
unfoldable pub store_bytes : List ℕ → ℕ → List ℕ → Option (List ℕ)
store_bytes buf i bytes =
    if leb (i + length bytes) (length buf)
    then some (take i buf ++ (bytes ++ drop (i + length bytes) buf))
    else none

unfoldable pub load_bytes : List ℕ → ℕ → ℕ → Option (List ℕ)
load_bytes buf i n = if leb (i + n) (length buf) then some (take n (drop i buf)) else none

-- Within one array: the source is read before anything is written, as memmove promises.
unfoldable pub move_bytes : List ℕ → ℕ → ℕ → ℕ → Option (List ℕ)
unfolding store_bytes load_bytes
move_bytes buf dst src n = do bytes ← load_bytes buf src n; store_bytes buf dst bytes

-- `for (; times > 0; times--) { memcpy(buf + i, bytes, length); i += length; }`
unfoldable pub store_times : ℕ → List ℕ → ℕ → List ℕ → Option (List ℕ)
unfolding store_bytes
store_times zero buf i bytes = some buf
store_times (suc n) buf i bytes = do
  buf' ← store_bytes buf i bytes
  store_times n buf' (i + length bytes) bytes

pub load_bytes-append :
    (xs ys zs : List ℕ) (i n : ℕ)
    → i ≡ length xs
    → n ≡ length ys
    → load_bytes (xs ++ (ys ++ zs)) i n ≡ some ys
unfolding load_bytes
load_bytes-append xs ys zs i n p q = rw (
  le→leb (i + n) (length (xs ++ (ys ++ zs)))
      (omega (arith, length-append xs (ys ++ zs), length-append ys zs)),
  drop-append i xs (ys ++ zs) p,
  take-append n ys zs q,
)

pub store_bytes-append :
    (xs ys zs bytes : List ℕ) (i : ℕ)
    → i ≡ length xs
    → length bytes ≡ length ys
    → store_bytes (xs ++ (ys ++ zs)) i bytes ≡ some (xs ++ (bytes ++ zs))
unfolding store_bytes
store_bytes-append xs ys zs bytes i p q = rw (
  le→leb (i + length bytes) (length (xs ++ (ys ++ zs)))
      (omega (arith, length-append xs (ys ++ zs), length-append ys zs)),
  take-append i xs (ys ++ zs) p,
  ← append_assoc xs ys zs,
  drop-append (i + length bytes) (xs ++ ys) zs (omega (arith, length-append xs ys)),
)

pub length-repeat : (n : ℕ) (xs : List ℕ) → length (repeat n xs) ≡ n * length xs
length-repeat zero xs = omega arith
length-repeat (suc n) xs = omega (arith, length-append xs (repeat n xs), length-repeat n xs)

-- Where an array is long enough, it splits at the two ends of a window.
pub split_window :
    (buf : List ℕ) (i n : ℕ)
    → i + n ≤ length buf
    → (xs : List ℕ) × (ys : List ℕ) × (zs : List ℕ) × (buf ≡ xs ++ (ys ++ zs))
      × (length xs ≡ i)
      × (length ys ≡ n)
split_window buf i n h = (
  take i buf,
  take n (drop i buf),
  drop n (drop i buf),
  sym (ap (take i buf ++◌) (take-append-drop n (drop i buf)) ∙ take-append-drop i buf),
  omega (arith, length-take i buf),
  omega (arith, length-take n (drop i buf), length-drop i buf),
)

pub store_times-append :
    (n : ℕ) (xs ys zs bytes : List ℕ) (i : ℕ)
    → i ≡ length xs
    → length ys ≡ n * length bytes
    → store_times n (xs ++ (ys ++ zs)) i bytes ≡ some (xs ++ (repeat n bytes ++ zs))
unfolding store_times
store_times-append zero xs [] zs bytes i p q = refl
store_times-append zero xs (y ∷ ys) zs bytes i p q = absurd (omega arith)
store_times-append (suc n) xs ys zs bytes i p q =
    subst
      (λ w.
        store_times (suc n) (xs ++ (w ++ zs)) i bytes ≡ some (xs ++ (repeat (suc n) bytes ++ zs)))
      (take-append-drop k ys)
      (rw
        (
          append_assoc first rest zs,
          store_bytes-append xs first (rest ++ zs) bytes i p cut,
          ← append_assoc xs bytes (rest ++ zs),
          append_assoc bytes (repeat n bytes) zs,
          ← append_assoc xs bytes (repeat n bytes ++ zs),
        )
        (store_times-append n (xs ++ bytes) rest zs bytes (i + k)
          (omega (arith, length-append xs bytes)) left))
  where
    k : ℕ
    k = length bytes

    first : List ℕ
    first = take k ys

    rest : List ℕ
    rest = drop k ys

    cut : k ≡ length first
    cut = omega (arith, length-take k ys)

    left : length rest ≡ n * k
    left = omega (arith, length-drop k ys)
