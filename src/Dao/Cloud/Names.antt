-- ===== src/Dao/Cloud/Names.antt =====
-- Cloud names are keys (the unique column of `Cloud` in src/quads/server/models.py).
use quads.Base.{
  ◌≡◌, ◌≢◌, ap, sym, Bool, some, List, [], ◌∷◌, arith, All, All-first, first, str_eq, eq_iff,
  Bool-cases, inl, inr,
}
use quads.Models.{Cloud, Db}
use quads.Dao.Cloud.{get_cloud}

-- No two clouds share a name.
abbrev pub HaveCloudNames : List Cloud → Type 0
HaveCloudNames [] = Unit
HaveCloudNames (c ∷ clouds) = All (λ k. k.name ≢ c.name) clouds × HaveCloudNames clouds

first-name :
    (p : Cloud → Bool) (clouds : List Cloud) (c : Cloud)
    → HaveCloudNames clouds
    → first p clouds ≡ some c
    → first (λ k. str_eq k.name c.name) clouds ≡ some c
first-name p [] c u h = cc
first-name p (x ∷ clouds) c u h = elim (Bool-cases (p x)) [
  | inl e ↦
      let same : x ≡ c = ground arith in
      let equal = (eq_iff x.name c.name).1 (ap (λ k. k.name) same) in rw equal (ap some same)
  | inr e ↦
      let rest : first p clouds ≡ some c = ground arith in
      let other : c.name ≢ x.name = All-first (λ k. k.name ≢ x.name) p clouds c u.0 rest in
      elim (Bool-cases (str_eq x.name c.name)) [
        | inl equal ↦ absurd (other (sym ((eq_iff x.name c.name).0 equal)))
        | inr differs ↦ rw differs (first-name p clouds c u.1 rest)
      ]
]

-- A cloud that some query finds first is the one of its name.
pub get_cloud-first :
    (db : Db) (p : Cloud → Bool) (c : Cloud)
    → HaveCloudNames db.clouds
    → first p db.clouds ≡ some c
    → get_cloud db c.name ≡ some c
unfolding get_cloud
get_cloud-first db p c u h = first-name p db.clouds c u h
