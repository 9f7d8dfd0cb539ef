-- ===== src/Strings.antt =====
-- The string functions of kernel/src/lib/string.c on the memory of `Memory`. The child modules prove
-- what holds of them.
--
-- A loop that runs to the NUL byte takes the number of rounds that it may make, and is `none` when
-- they do not reach; the theorems show that one round more than the length of the string is enough.
-- A `char` is signed, and an `int` is given modulo 2^32. `strdynamize` calls the kernel heap and
-- is left out.
pub mod Length
pub mod Compare
pub mod Concat
pub mod Find
pub mod Number
mod Tests
use nocturne_os_base.Prelude.{
  ℕ, zero, suc, ◌+◌, ◌-◌, ◌*◌, ◌^◌, Bool, true, false, not, ◌&&◌, ◌||◌, Option, none, some, map,
  ltb, leb, ◌==◌, if◌then◌else◌, u32, sub32, ◌<<<◌,
}
use nocturne_os_base.Memory.{Memory, write}

-- A `char` as an `int`.
abbrev pub sign_extend : ℕ → ℕ
sign_extend c = if ltb c 128 then c else c + (2 ^ 32 - 256)

pub strlen : ℕ → Memory → ℕ → ℕ → Option ℕ
strlen zero m input len = none
strlen (suc fuel) m input len =
    let rest = strlen fuel m input (len + 1) in if m (input + len) == 0 then some len else rest

pub strcmp : ℕ → Memory → ℕ → ℕ → Option ℕ
strcmp zero m stra strb = none
strcmp (suc fuel) m stra strb =
    let rest = strcmp fuel m (stra + 1) (strb + 1) in
    if not (m stra == 0) && (m stra == m strb)
    then rest
    else some (sub32 (sign_extend (m stra)) (sign_extend (m strb)))

-- `strcpy`, and the second loop and last write of `strcat`, from index `i` on.
pub strcpy : ℕ → Memory → ℕ → ℕ → ℕ → Option Memory
strcpy zero m dest src i = none
strcpy (suc fuel) m dest src i =
    let rest = strcpy fuel (write m (dest + i) (m (src + i))) dest src (i + 1) in
    if m (src + i) == 0 then some (write m (dest + i) 0) else rest

-- The rounds of `strncpy` from index `i` on, `n` of them left.
pub strncpy : Memory → ℕ → ℕ → ℕ → ℕ → Memory
strncpy m dest src zero i = m
strncpy m dest src (suc n) i =
    let rest = strncpy (write m (dest + i) (m (src + i))) dest src n (i + 1) in
    if m (src + i) == 0 then m else rest

pub strcat : ℕ → Memory → ℕ → ℕ → Option Memory
strcat fuel m destination source = elim (strlen fuel m destination 0) [
  | none ↦ none
  | some len ↦ strcpy fuel m (destination + len) source 0
]

pub substr : Memory → ℕ → ℕ → ℕ → ℕ → Memory
substr m dest source from length = write (strncpy m dest (source + from) length 0) (dest + length) 0

-- -47 and -48 as bytes.
pub is_utf : ℕ → Bool
is_utf c = (c == 209) || (c == 208)

pub count_characters : Memory → ℕ → ℕ → ℕ → ℕ → ℕ
count_characters m str zero i len = len
count_characters m str (suc n) i len =
    count_characters m str n (i + 1) (if is_utf (m (str + i)) then len else len + 1)

pub mb_strlen : ℕ → Memory → ℕ → Option ℕ
mb_strlen fuel m str = elim (strlen fuel m str 0) [
  | none ↦ none
  | some def ↦ some (count_characters m str def 0 0)
]

-- A null pointer is 0.
pub strchr : ℕ → Memory → ℕ → ℕ → Option ℕ
strchr zero m s c = none
strchr (suc fuel) m s c =
    let rest = strchr fuel m (s + 1) c in
    if m s == c then some s else if m s == 0 then some 0 else rest

-- Whether the inner loop of `strspn` stops in front of the end of `accept`.
pub accepts : ℕ → Memory → ℕ → ℕ → Option Bool
accepts zero m c a = none
accepts (suc fuel) m c a =
    let rest = accepts fuel m c (a + 1) in
    if m a == 0 then some false else if c == m a then some true else rest

pub strspn : ℕ → ℕ → Memory → ℕ → ℕ → ℕ → Option ℕ
strspn fuel_a zero m p accept count = none
strspn fuel_a (suc fuel) m p accept count =
    let rest = strspn fuel_a fuel m (p + 1) accept (count + 1) in
    if m p == 0 then some count else elim (accepts fuel_a m (m p) accept) [
      | none ↦ none
      | some true ↦ rest
      | some false ↦ some count
    ]

pub strncmp : Memory → ℕ → ℕ → ℕ → ℕ → ℕ
strncmp m s1 s2 zero i = 0
strncmp m s1 s2 (suc num) i =
    let rest = strncmp m s1 s2 num (i + 1) in if m (s1 + i) == m (s2 + i) then rest else 1

abbrev pub is_digit : ℕ → Bool
is_digit c = leb 48 c && leb c 57

pub all_digits : Memory → ℕ → ℕ → ℕ → Bool
all_digits m c zero i = true
all_digits m c (suc n) i =
    let rest = all_digits m c n (i + 1) in if is_digit (m (c + i)) then rest else false

pub is_number : ℕ → Memory → ℕ → Option Bool
is_number fuel m c = elim (strlen fuel m c 0) [
  | none ↦ none
  | some len ↦ some (all_digits m c len 0)
]

-- The loop of `atoi`; a sum past the range of an `int` wraps.
pub decimal : ℕ → Memory → ℕ → ℕ → Option ℕ
decimal zero m s n = none
decimal (suc fuel) m s n =
    let rest = decimal fuel m (s + 1) (u32 (n * 10 + (m s - 48))) in
    if is_digit (m s) then rest else some n

pub atoi : ℕ → Memory → ℕ → Option ℕ
atoi fuel m s =
    if m s == 45
    then elim (decimal fuel m (s + 1) 0) [ none ↦ none | some n ↦ some (sub32 0 n) ]
    else decimal fuel m s 0

-- The value of a hexadecimal digit.
pub hex_digit : ℕ → Option ℕ
hex_digit c =
    if is_digit c
    then some (c - 48)
    else if leb 65 c && leb c 70
    then some (c - 65 + 10)
    else if leb 97 c && leb c 102
    then some (c - 97 + 10)
    else none

pub htoi : ℕ → Memory → ℕ → ℕ → Option ℕ
htoi zero m p result = none
htoi (suc fuel) m p result = if m p == 0 then some result else elim (hex_digit (m p)) [
  | none ↦ some result
  | some d ↦ htoi fuel m (p + 1) (u32 ((result <<< 4) + d))
]
