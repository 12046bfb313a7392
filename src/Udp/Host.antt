-- ===== src/Udp/Host.antt =====
-- src/utils/network/UdpComm.cpp, `getHost`: the last number of the address of the wireless interface.
use mundosvirtuales_terremot.Base.{
  ℕ, ◌+◌, ◌-◌, ◌*◌, ◌/◌, ◌%◌, ◌^◌, ◌<◌, ◌≡◌, refl, ap, ◌∙◌, Bool, true, false, ◌&&◌, inl, inr, List,
  [], ◌∷◌, ◌++◌, none, some, arith, Bool-cases, Option-cases, All, ◌⊎◌, if◌then◌else◌, ltb, leb,
  ◌==◌,
}
use mundosvirtuales_terremot.Udp.{Interface}

-- The code of the dot, and "wlan".
abbrev pub dot : ℕ
dot = 46

abbrev pub wlan : List ℕ
wlan = 119 ∷ 108 ∷ 97 ∷ 110 ∷ []

abbrev pub has_dot : List ℕ → Bool
has_dot [] = false
has_dot (c ∷ cs) = if c == dot then true else has_dot cs

-- `substr(rfind(".") + 1)`: what stands behind the last dot, everything without one.
unfoldable pub after_last_dot : List ℕ → List ℕ
after_last_dot [] = []
after_last_dot (c ∷ cs) =
    let rest = after_last_dot cs in if has_dot cs then rest else if c == dot then cs else c ∷ cs

-- The digits at the start of a text as a number; `atoi` of a text without a sign or spaces.
unfoldable pub atoi_from : ℕ → List ℕ → ℕ
atoi_from n [] = n
atoi_from n (c ∷ cs) =
    let rest = atoi_from (n * 10 + (c - 48)) cs in if leb 48 c && leb c 57 then rest else n

-- `interfaceName.find("wlan")` finds something.
unfoldable pub starts : List ℕ → List ℕ → Bool
starts [] text = true
starts (p ∷ ps) [] = false
starts (p ∷ ps) (c ∷ cs) = p == c && starts ps cs

unfoldable pub contains : List ℕ → List ℕ → Bool
unfolding starts
contains pattern [] = starts pattern []
contains pattern (c ∷ cs) = if starts pattern (c ∷ cs) then true else contains pattern cs

-- `getHost` with the list of `getifaddrs`; `ntoa` is `inet_ntoa`.
unfoldable pub get_host : (ℕ → List ℕ) → List Interface → ℕ
unfolding contains after_last_dot atoi_from
get_host ntoa [] = 255
get_host ntoa (i ∷ is) = elim (i.address) [
  | none ↦ get_host ntoa is
  | some a ↦
      if contains wlan i.name
      then atoi_from 0 (after_last_dot (ntoa a)) % 2 ^ 16
      else get_host ntoa is
]

-- A number below 256 in decimal.
abbrev pub decimals : ℕ → List ℕ
decimals n =
    if ltb n 10
    then (48 + n) ∷ []
    else if ltb n 100
    then (48 + n / 10) ∷ (48 + n % 10) ∷ []
    else (48 + n / 100) ∷ (48 + n / 10 % 10) ∷ (48 + n % 10) ∷ []

-- The documented form of `inet_ntoa`: dotted decimal, the last byte last.
abbrev pub IsDotted : (ℕ → List ℕ) → Type 0
IsDotted ntoa = (a : ℕ) → (front : List ℕ) × (ntoa a ≡ front ++ dot ∷ decimals (a % 2 ^ 8))

atoi_step :
    (n d : ℕ) (rest : List ℕ) → d < 10 → atoi_from n ((48 + d) ∷ rest) ≡ atoi_from (n * 10 + d) rest
unfolding atoi_from
atoi_step n d rest h =
    let e : (leb 48 (48 + d) && leb (48 + d) 57) ≡ true = ground arith in
    rw (e, atoi_from) (ap (λ k. atoi_from k rest) (omega arith))

atoi_end : (n : ℕ) → atoi_from n [] ≡ n
unfolding atoi_from
atoi_end n = refl

atoi-decimals : (n : ℕ) → n < 2 ^ 8 → atoi_from 0 (decimals n) ≡ n
atoi-decimals n h = elim (Bool-cases (ltb n 10)) [
  | inl e ↦ rw e (atoi_step 0 n [] (ground arith) ∙ atoi_end _ ∙ omega arith)
  | inr e ↦ elim (Bool-cases (ltb n 100)) [
    | inl k ↦
        rw (e, k)
          (atoi_step 0 (n / 10) _ (ground arith)
            ∙ atoi_step (0 * 10 + n / 10) (n % 10) [] (omega arith)
            ∙ atoi_end _
            ∙ omega arith)
    | inr k ↦
        rw (e, k)
          (atoi_step 0 (n / 100) _ (omega arith)
            ∙ atoi_step (0 * 10 + n / 100) (n / 10 % 10) _ (omega arith)
            ∙ atoi_step _ (n % 10) [] (omega arith)
            ∙ atoi_end _
            ∙ omega arith)
  ]
]

digit_no_dot : (d : ℕ) → (48 + d == dot) ≡ false
digit_no_dot d = ground arith

has_dot-decimals : (n : ℕ) → has_dot (decimals n) ≡ false
has_dot-decimals n = elim (Bool-cases (ltb n 10)) [
  | inl e ↦ rw (e, digit_no_dot n) refl
  | inr e ↦ elim (Bool-cases (ltb n 100)) [
    | inl k ↦ rw (e, k, digit_no_dot (n / 10), digit_no_dot (n % 10)) refl
    | inr k ↦
        rw (e, k, digit_no_dot (n / 100), digit_no_dot (n / 10 % 10), digit_no_dot (n % 10)) refl
  ]
]

has_dot-append : (front tail : List ℕ) → has_dot (front ++ dot ∷ tail) ≡ true
has_dot-append [] tail = refl
has_dot-append (c ∷ cs) tail = elim (Bool-cases (c == dot)) [
  | inl e ↦ rw e refl
  | inr e ↦ rw e (has_dot-append cs tail)
]

after_last_dot-append :
    (front tail : List ℕ) → has_dot tail ≡ false → after_last_dot (front ++ dot ∷ tail) ≡ tail
unfolding after_last_dot
after_last_dot-append [] tail h = rw h refl
after_last_dot-append (c ∷ cs) tail h =
    rw (has_dot-append cs tail) (after_last_dot-append cs tail h)

-- An interface without an IPv4 address, or without "wlan" in its name.
abbrev pub Wired : Interface → Type 0
Wired i = (i.address ≡ none) ⊎ (contains wlan i.name ≡ false)

-- `getHost` is the last byte of the address of the first wireless interface with an address, however `inet_ntoa`
-- prints the bytes before it.
pub get_host_last :
    (ntoa : ℕ → List ℕ) (before later : List Interface) (i : Interface) (a : ℕ)
    → IsDotted ntoa
    → All Wired before
    → i.address ≡ some a
    → contains wlan i.name ≡ true
    → get_host ntoa (before ++ i ∷ later) ≡ a % 2 ^ 8
unfolding get_host
get_host_last ntoa [] later i a dotted wired e w =
    let (front, text) = dotted a in
    let last : after_last_dot (ntoa a) ≡ decimals (a % 2 ^ 8) =
      ap after_last_dot text
      ∙ after_last_dot-append front (decimals (a % 2 ^ 8)) (has_dot-decimals (a % 2 ^ 8)) in
    let number : atoi_from 0 (after_last_dot (ntoa a)) ≡ a % 2 ^ 8 =
      ap (atoi_from 0) last ∙ atoi-decimals (a % 2 ^ 8) (omega arith) in
    rw (e, w, get_host) (ap (λ n. n % 2 ^ 16) number ∙ omega arith)
get_host_last ntoa (j ∷ js) later i a dotted (inl n, wired) e w =
    rw (n, get_host) (get_host_last ntoa js later i a dotted wired e w)
get_host_last ntoa (j ∷ js) later i a dotted (inr n, wired) e w =
    let rest = get_host_last ntoa js later i a dotted wired e w in
    elim (Option-cases j.address) [
      | inl m ↦ rw (m, get_host) rest
      | inr (b, m) ↦ rw (m, n, get_host) rest
    ]
