-- ===== src/Registry/Tests.antt =====
-- Runs of the registers.
use mundosvirtuales_terremot.Base.{ℕ, ◌+◌, ◌<◌, ◌≤◌, ◌≡◌, refl, false, List, [], ◌∷◌, some, arith}
use mundosvirtuales_terremot.Base.Int.{pos}
use mundosvirtuales_terremot.Registry.{
  RemoteClientData, PairClientData, unbound, has_id, get_new_remote_id, find_register,
}
use mundosvirtuales_terremot.Registry.Laws.{get_new_remote_id_free}

abbrev device : ℕ → RemoteClientData
device id = record { remote_id = pos id; create_timestamp = 0; lat = 0; lng = 0 }

abbrev registers : List PairClientData
registers = unbound (device 2) ∷ unbound (device 3) ∷ []

next_is_four : get_new_remote_id registers ≡ 4
unfolding get_new_remote_id
next_is_four = refl

get_new_remote_id_free_example :
    let id = get_new_remote_id registers in (has_id registers id ≡ false) × (0 < id) × (id ≤ 2 + 2)
get_new_remote_id_free_example = get_new_remote_id_free registers

below_next : 3 < get_new_remote_id registers
unfolding get_new_remote_id
below_next = omega arith

second_is_three : find_register (pos 3) registers ≡ some 1
unfolding find_register
second_is_three = refl
