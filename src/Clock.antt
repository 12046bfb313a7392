-- ===== src/Clock.antt =====
-- src/utils/platform/SystemCall.cpp and SystemCall.h, the build without WIN32 and MACOSX: the clocks, the
-- names of the machine and its load. `unsigned` has 32 bits, `unsigned long long` 64. A static local is a field of the
-- state; a text is its list of codes. What the system answers is an argument.
pub mod Elapsed
mod Tests
use mundosvirtuales_terremot.Base.{
  ℕ, zero, suc, ◌+◌, ◌-◌, ◌*◌, ◌/◌, ◌%◌, ◌^◌, Bool, true, false, List, [], ◌∷◌, Option, none, some,
  if◌then◌else◌, length, ltb, ◌==◌,
}
use mundosvirtuales_terremot.Base.Int.{ℤ, signed32}

-- A reading of clock_gettime.
pub record Timespec : Type 0 where
  pub sec : ℕ
  pub nsec : ℕ

-- `time - base` and `time + n - base` on words of the width of `m`, the first power out of range.
abbrev pub minus : ℕ → ℕ → ℕ → ℕ
minus m a b = (a + m - b) % m

-- `getRealSystemTime`: `base` after the call, and the result.
unfoldable pub get_real_system_time : ℕ → Timespec → ℕ × ℕ
get_real_system_time base t =
    let time = (t.sec * 1000 + t.nsec / 1000000) % 2 ^ 32 in
    let kept = if base == 0 then minus (2 ^ 32) time 10000 else base in
    (kept, minus (2 ^ 32) time kept)

-- `getTimeSince` and `getRealTimeSince`, of the time that the clock shows.
unfoldable pub get_time_since : ℕ → ℕ → ℤ
get_time_since now time = signed32 (minus (2 ^ 32) now time)

-- `getCurrentThreadTime`: `base` after the call, the result, and how many errors are logged. Both tests take
-- success, the result 0, for an error.
unfoldable pub get_current_thread_time : ℕ → Bool → Bool → Timespec → ℕ × ℕ × ℕ
get_current_thread_time base has_clock has_time t =
    let time = (t.sec * 1000000 + t.nsec / 1000) % 2 ^ 64 in
    let kept = if base == 0 then minus (2 ^ 64) time 1000000 else base in
    (kept, minus (2 ^ 64) time kept, (if has_clock then 1 else 0) + (if has_time then 1 else 0))

-- `getHostName`: the cached name after the call. `gethostname` leaves the buffer empty when it fails; the
-- test takes its result 0, success, for the error, which is only logged.
unfoldable pub get_host_name : Option (List ℕ) → Option (List ℕ) → List ℕ
get_host_name (some cached) answer = cached
get_host_name none (some name) = name
get_host_name none none = []

-- "127.0.0.1"
abbrev pub localhost : List ℕ
localhost = 49 ∷ 50 ∷ 55 ∷ 46 ∷ 48 ∷ 46 ∷ 48 ∷ 46 ∷ 49 ∷ []

-- `getHostAddr`: the cached text after the call. `ntoa` is `inet_ntoa`, `copy` what `strcpy_s` leaves in the
-- buffer for a size and a text; the size of the pointer to the local address is 8.
unfoldable pub get_host_addr :
    (ℕ → List ℕ) → (ℕ → List ℕ → List ℕ) → Option (List ℕ) → Option ℕ → List ℕ
get_host_addr ntoa copy (some cached) address = cached
get_host_addr ntoa copy none (some address) = copy (length (ntoa address) + 1) (ntoa address)
get_host_addr ntoa copy none none = copy 8 localhost

-- `getHostAddrInt`; `address` is that of `gethostbyname`, in host order.
unfoldable pub get_host_addr_int : Option ℕ → ℕ
get_host_addr_int none = 0
get_host_addr_int (some address) = address

-- struct sysinfo
pub record SysInfo : Type 0 where
  pub loads : List ℕ
  pub total_ram : ℕ
  pub free_ram : ℕ

-- `float(a) / float(b)` and -1.f
pub record FloatOps : Type 0 where
  pub over : ℕ → ℕ → ℕ
  pub minus_one : ℕ

-- `getLoad`: `mem` and `load`; `none` is a `sysinfo` that fails.
unfoldable pub get_load : FloatOps → Option SysInfo → ℕ × List ℕ
get_load f none = (f.minus_one, f.minus_one ∷ f.minus_one ∷ f.minus_one ∷ [])
get_load f (some info) = (f.over (info.total_ram - info.free_ram) info.total_ram, shares info.loads)
  where
    shares : List ℕ → List ℕ
    shares [] = []
    shares (l ∷ ls) = f.over l 65536 ∷ shares ls

-- `createThread`, of the result of `pthread_create`.
unfoldable pub create_thread : ℕ → Bool
create_thread err = err == 0
