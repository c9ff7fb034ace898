-- ===== src/Server/Locations.antt =====
-- server/mod.rs: where the databases of accounts are, `AccountRegistry.accounts_db`.
use qqflow_server.Prelude.{
  ◌≡◌, sym, ap, false, not, Bool-cases, inl, inr, Option, none, some, List, [], ◌∷◌, find, keep,
  if◌then◌else◌, arith,
}
use qqflow_server.Text.{Text, text_eq, text_eq_sym, text_eq→eq}

pub record DbInfo : Type 0 where
  pub qq : Text
  pub path : Text

unfoldable pub find_db : Text → List DbInfo → Option DbInfo
find_db qq = find (λ d. text_eq d.qq qq)

unfoldable pub remove_db : Text → List DbInfo → List DbInfo
remove_db qq = keep (λ d. not (text_eq d.qq qq))

unfoldable pub upsert_db : DbInfo → List DbInfo → List DbInfo
upsert_db info [] = info ∷ []
upsert_db info (d ∷ ds) =
    let rest = upsert_db info ds in if text_eq d.qq info.qq then info ∷ ds else d ∷ rest

-- After `upsert_db` the account is found where it was put last, and every other account where it was.
pub find_db-upsert_db :
    (info : DbInfo) (qq : Text) (ds : List DbInfo)
    → find_db qq (upsert_db info ds) ≡ (if text_eq info.qq qq then some info else find_db qq ds)
unfolding find_db upsert_db
find_db-upsert_db info qq [] = ground arith
find_db-upsert_db info qq (d ∷ ds) = elim (Bool-cases (text_eq d.qq info.qq)) [
  | inl same ↦
      let e : d.qq ≡ info.qq = text_eq→eq d.qq info.qq same in
      ground (arith, same, ap (λ q. text_eq q qq) e)
  | inr other ↦ elim (Bool-cases (text_eq d.qq qq)) [
    | inl own ↦
        let apart : text_eq info.qq qq ≡ false =
          rw (sym (text_eq→eq d.qq qq own)) (text_eq_sym d.qq info.qq other) in
        ground (arith, other, own, apart)
    | inr foreign ↦ ground (arith, other, foreign, find_db-upsert_db info qq ds)
  ]
]

-- After `remove_db` the account is not found, and every other account is found where it was.
pub find_db-remove_db :
    (removed qq : Text) (ds : List DbInfo)
    → find_db qq (remove_db removed ds) ≡ (if text_eq removed qq then none else find_db qq ds)
unfolding find_db remove_db
find_db-remove_db removed qq [] = ground arith
find_db-remove_db removed qq (d ∷ ds) = elim (Bool-cases (text_eq d.qq removed)) [
  | inl same ↦
      let e : d.qq ≡ removed = text_eq→eq d.qq removed same in
      ground (arith, same, ap (λ q. text_eq q qq) e, find_db-remove_db removed qq ds)
  | inr other ↦ elim (Bool-cases (text_eq d.qq qq)) [
    | inl own ↦
        let apart : text_eq removed qq ≡ false =
          rw (sym (text_eq→eq d.qq qq own)) (text_eq_sym d.qq removed other) in
        ground (arith, other, own, apart)
    | inr foreign ↦ ground (arith, other, foreign, find_db-remove_db removed qq ds)
  ]
]
