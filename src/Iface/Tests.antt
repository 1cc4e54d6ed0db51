-- ===== src/Iface/Tests.antt =====
-- Runs of the model of src/iface.c.
use pktsnare.Common.{ℕ, ◌≡◌, refl, true, false, Option, some, List, [], ◌∷◌}
use pktsnare.Common.Int.{pos}
use pktsnare.Common.Text.{codes}
use pktsnare.Iface.{Found, exists_, is_up, get_mtu, list_from, list}

-- Every name finds an interface that is up.
abbrev ask : List ℕ → Option Found
ask name = some (record { up = true; mtu = pos 1500 })

mtu_run :
    (get_mtu ask (some (codes "eth0")) true ≡ pos 1500)
    × (is_up ask (some (codes "eth0")) false ≡ false)
    × (exists_ ask (some []) true ≡ false)
unfolding get_mtu is_up exists_
mtu_run = (refl, refl, refl)

abbrev two : List (ℕ × List ℕ)
two = (1, codes "lo") ∷ (2, codes "wlan-with-long-name") ∷ []

-- There is room for the first name only.
list_run : list (some two) (pos 1) ([] ∷ []) ≡ some (1, codes "lo" ∷ [])
unfolding list list_from
list_run = refl
