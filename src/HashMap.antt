-- ===== src/HashMap.antt =====
-- The standard library's `HashMap` with keys that are strings or byte arrays: an association list with
-- one entry for each key. The order of its entries is theirs in the list.
pub mod Laws
use moar.Common.{Option, List, ◌∷◌, Bytes, bytes_eq}
use moar.ConcurrentMap.{lookup, without}

abbrev pub HashMap : Type 0 → Type 0
HashMap V = List (Bytes × V)

abbrev pub get : {V : Type 0} → HashMap V → Bytes → Option V
get m k = lookup bytes_eq m k

abbrev pub remove : {V : Type 0} → HashMap V → Bytes → HashMap V
remove m k = without bytes_eq m k

abbrev pub insert : {V : Type 0} → HashMap V → Bytes → V → HashMap V
insert m k v = (k, v) ∷ remove m k
