-- ===== src/Regime/Store.antt =====
-- internal/infra/postgres/regime: the repository's `Save` and the score reader, over the queries of
-- internal/storage, which are parameters.
pub mod Laws
use marketengine.Prelude.{
  String, Bool, true, false, Option, none, some, List, [], ◌∷◌, ◌==◌, if◌then◌else◌,
}
use marketengine.Float.{Float}
use marketengine.Errors.{Result, ok, err, ◌>>=◌, ◌>>◌, context}
use marketengine.GoMap.{Map, lookup, insert, collect}
use marketengine.Domain.{
  Asset, asset_global, DomainCode, capital_flows, RegimeState, validate_state,
}

-- the asset under which the scores of a domain are stored
unfoldable pub query_asset_for : Asset → DomainCode → String
query_asset_for asset dom = if dom == capital_flows then asset_global else asset

abbrev without_capital_flows : {V : Type 0} → String → V → Option V
without_capital_flows k v = if k == capital_flows then none else some v

abbrev pub put_global : {V : Type 0} → Option V → Map V → Map V
put_global none out = out
put_global (some v) out = insert capital_flows v out

-- `GetLatestAll` over `storage.GetLatestDomainScores` of an asset
unfoldable pub get_latest_all : {V : Type 0} → (String → Result (Map V)) → Asset → Result (Map V)
get_latest_all latest asset = do
  asset_map ← latest asset
  global_map ← latest asset_global
  let out = collect without_capital_flows asset_map []
  ok (put_global (lookup capital_flows global_map) out)

-- `GetByDate` and `GetHistory` pass on what `storage` returns for the asset of the domain
unfoldable pub get_for_domain :
    {A : Type 0} → (String → DomainCode → Result A) → Asset → DomainCode → Result A
unfolding query_asset_for
get_for_domain stored asset dom = stored (query_asset_for asset dom) dom

module _ {F : Type 0} ⦃f : Float F⦄ where
  -- `Save` over `storage.InsertRegimeState` in a transaction
  unfoldable pub save : (RegimeState F → Result (Unit {0})) → RegimeState F → Result (Unit {0})
  save insert s = do context "invalid regime state" (validate_state s); insert s
