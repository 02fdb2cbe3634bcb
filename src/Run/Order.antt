-- ===== src/Run/Order.antt =====
-- Lemmas on the order of the groups in run.go.
use postgrest_conformance.Base.{Bool, true, false, List, [], ◌∷◌, all, any, if◌then◌else◌}
use postgrest_conformance.Base.Text.{Bytes, str_eq}
use postgrest_conformance.Base.Int.{int_le}
use postgrest_conformance.Run.{HttpGroup, cases_of, shared_group_order}

-- Of the texts of a list, the first is found no later than the second.
abbrev pub no_later : List Bytes → Bytes → Bytes → Bool
no_later [] a b = true
no_later (s ∷ ss) a b = if str_eq s a then true else if str_eq s b then false else no_later ss a b

-- The group of a shared instance is booted no later than the other: its key stands no later in the list.
abbrev pub boots_no_later : HttpGroup → HttpGroup → Bool
boots_no_later a b = no_later shared_group_order a.key b.key

-- A case of the first group has an id that no case of the second group goes below.
abbrev pub has_least : HttpGroup → HttpGroup → Bool
has_least a b = any (λ c. all (λ d. int_le c.id d.id) (cases_of b)) (cases_of a)
