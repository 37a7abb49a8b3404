-- ===== src/Util/TtlCache/Examples.antt =====
-- The cache at concrete inputs.
use trenches.Base.{ℕ, ◌≡◌, refl, none, [], text_discrete}
use trenches.Base.Dict
use trenches.Util.TtlCache.{TtlCache, set, get}

abbrev one_entry : TtlCache ℕ
unfolding set
one_entry = set "m" 9 100 (record { ttl_ms = 60; store = [] })

get_expired : (get "m" 161 one_entry).0 ≡ none
unfolding get set Dict.get Dict.put text_discrete
get_expired = refl
