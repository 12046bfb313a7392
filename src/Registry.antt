-- ===== src/Registry.antt =====
-- The registered devices of a server: RemoteClientData of src/utils/ClientID.h, PairClientData of
-- src/server/ServerSensors.h, and what src/server/ServerSensors.cpp and src/server/ServerAlarm.cpp do alike with
-- their lists: loading them from the file, choosing a new identification, looking one up.
-- Coordinates are the 64 bits of a `double`; a file is the list of the records written to it.
pub mod Laws
mod Tests
use mundosvirtuales_terremot.Base.{
  ℕ, zero, suc, ◌+◌, Bool, true, false, ◌||◌, List, [], ◌∷◌, Option, none, some, if◌then◌else◌, ltb,
  ◌==◌, length,
}
use mundosvirtuales_terremot.Base.Int.{ℤ, pos}
use mundosvirtuales_terremot.Server.{◌==ℤ◌}

pub record RemoteClientData : Type 0 where
  pub remote_id : ℤ
  pub create_timestamp : ℕ
  pub lat : ℕ
  pub lng : ℕ

pub record PairClientData : Type 0 where
  pub info : RemoteClientData
  pub client : Option ℕ

-- PairClientData(), whose `m_data()` is all zeros.
abbrev pub new_pair : PairClientData
new_pair = record {
  info = record { remote_id = pos 0; create_timestamp = 0; lat = 0; lng = 0 };
  client = none;
}

abbrev pub unbound : RemoteClientData → PairClientData
unbound r = record { info = r; client = none }

-- `while (!eof()) { read; push_back }` over the records left in the file: the read that meets the
-- end of the file leaves the register as it was constructed, and it is pushed too.
unfoldable pub load_records : List RemoteClientData → List PairClientData
load_records [] = new_pair ∷ []
load_records (r ∷ rs) = unbound r ∷ load_records rs

-- The constructors of the servers; `none` is a file that cannot be opened.
unfoldable pub load : Option (List RemoteClientData) → List PairClientData
unfolding load_records
load none = []
load (some records) = load_records records

-- The inner `for` loop of `getNewRemoteID`.
unfoldable pub has_id : List PairClientData → ℕ → Bool
has_id [] id = false
has_id (r ∷ rs) id = r.info.remote_id ==ℤ pos id || has_id rs id

-- The `while` loop of `getNewRemoteID`, with the rounds that it may make.
unfoldable pub search_id : ℕ → List PairClientData → ℕ → ℕ
unfolding has_id
search_id zero rs id = id
search_id (suc fuel) rs id =
    let next = search_id fuel rs (id + 1) in if has_id rs (id + 1) then next else id + 1

unfoldable pub get_new_remote_id : List PairClientData → ℕ
unfolding search_id
get_new_remote_id [] = 1
get_new_remote_id (r ∷ rs) = search_id (length (r ∷ rs) + 1) (r ∷ rs) 1

abbrev pub shift : Option ℕ → Option ℕ
shift none = none
shift (some i) = some (suc i)

-- The `for` loop of `addClient`: the place of the first register of the device.
unfoldable pub find_register : ℤ → List PairClientData → Option ℕ
find_register id [] = none
find_register id (r ∷ rs) = if id ==ℤ r.info.remote_id then some 0 else shift (find_register id rs)
