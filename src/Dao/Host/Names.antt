-- ===== src/Dao/Host/Names.antt =====
-- Host names are keys: the host that `get_hosts_for_update` of src/quads/server/dao/host.py gives for a
-- name is the one that `get_host` finds.
use mathlib.Core.Path.{subst}
use quads.Base.{
  inl, inr, Bool-cases, String, ◌≡◌, ◌≢◌, refl, Bool, true, List, [], ◌∷◌, arith, ap, some, sym,
  ◌∙◌, All-map, str_eq, eq_iff, All, select, first, last?,
}
use quads.Models.{Host, Db}
use quads.Dao.Host.{contains, get_host, get_hosts_for_update, host_map_get}

-- No two hosts share a name or a key.
abbrev pub HaveNames : List Host → Type 0
HaveNames [] = Unit
HaveNames (h ∷ hosts) = All (λ k. (k.name ≢ h.name) × (k.id ≢ h.id)) hosts × HaveNames hosts

abbrev named : String → List Host → List Host
named name = select (λ h. str_eq h.name name)

named-none :
    (name : String) (hosts : List Host) → All (λ k. k.name ≢ name) hosts → named name hosts ≡ []
named-none name [] h = refl
named-none name (k ∷ hosts) h = ground (arith, eq_iff k.name name, named-none name hosts h.1)

last-named :
    (name : String) (hosts : List Host)
    → HaveNames hosts
    → last? (named name hosts) ≡ first (λ h. str_eq h.name name) hosts
last-named name [] u = refl
last-named name (h ∷ hosts) u = elim (Bool-cases (str_eq h.name name)) [
  | inl e ↦
      let n = (eq_iff h.name name).0 e in
      rw (
        e,
        named-none name hosts
            (subst (λ m. All (λ k. k.name ≢ m) hosts) n (All-map hosts (λ k d. d.0) u.0)),
      )
  | inr e ↦ rw e (last-named name hosts u.1)
]

named-select :
    (names : List String) (name : String) (hosts : List Host)
    → contains names name ≡ true
    → named name (select (λ h. contains names h.name) hosts) ≡ named name hosts
named-select names name [] c = refl
named-select names name (h ∷ hosts) c =
    ground (arith, eq_iff h.name name, named-select names name hosts c)

-- Where host names are unique, the locked host of a name that was asked for is the host of that name.
pub host_map_get-get_host :
    (db : Db) (names : List String) (name : String)
    → HaveNames db.hosts
    → contains names name ≡ true
    → host_map_get (get_hosts_for_update db names) name ≡ get_host db name
unfolding get_hosts_for_update get_host
host_map_get-get_host db names name u c =
    rw (named-select names name db.hosts c) (last-named name db.hosts u)

first-other :
    (p : Host → Bool) (h a : Host) (hosts : List Host)
    → All (λ k. (k.name ≢ h.name) × (k.id ≢ h.id)) hosts
    → first p hosts ≡ some a
    → a.id ≢ h.id
first-other p h a [] u e = cc
first-other p h a (k ∷ hosts) u e = elim (Bool-cases (p k)) [
  | inl t ↦ let same : k ≡ a = ground arith in subst (λ (x : Host). x.id ≢ h.id) same u.0.1
  | inr f ↦ first-other p h a hosts u.1 (ground arith)
]

first_ne :
    (m n : String) (a b : Host) (hosts : List Host)
    → HaveNames hosts
    → first (λ h. str_eq h.name m) hosts ≡ some a
    → first (λ h. str_eq h.name n) hosts ≡ some b
    → m ≢ n
    → a.id ≢ b.id
first_ne m n a b [] u ea eb ne = cc
first_ne m n a b (h ∷ hosts) u ea eb ne = elim (Bool-cases (str_eq h.name m)) [
  | inl em ↦
      let at_head : h ≡ a = ground arith in
      elim (Bool-cases (str_eq h.name n)) [
        | inl en ↦ absurd (ne (sym ((eq_iff h.name m).0 em) ∙ (eq_iff h.name n).0 en))
        | inr fn ↦
            let later = first-other (λ k. str_eq k.name n) h b hosts u.0 (ground arith) in
            λ e. later (sym e ∙ sym (ap (λ k. k.id) at_head))
      ]
  | inr fm ↦ elim (Bool-cases (str_eq h.name n)) [
    | inl en ↦
        let at_head : h ≡ b = ground arith in
        let later = first-other (λ k. str_eq k.name m) h a hosts u.0 (ground arith) in
        λ e. later (e ∙ sym (ap (λ k. k.id) at_head))
    | inr fn ↦ first_ne m n a b hosts u.1 (ground arith) (ground arith) ne
  ]
]

-- Two hosts that are found under different names have different keys.
pub get_host_ne :
    (db : Db) (m n : String) (a b : Host)
    → HaveNames db.hosts
    → get_host db m ≡ some a
    → get_host db n ≡ some b
    → m ≢ n
    → a.id ≢ b.id
unfolding get_host
get_host_ne db m n a b u ea eb ne = first_ne m n a b db.hosts u ea eb ne
