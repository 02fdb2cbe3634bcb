-- ===== src/Run.antt =====
-- tools/oracle/cmd/oracle/run.go: which cases run, in which groups, and what is made of their failures.
-- Flags reads the filters, Loop runs the cases, Command is the whole, and Interrupt the signal.
pub mod Groups
pub mod Schedule
pub mod Order
pub mod Selection
pub mod Flags
pub mod Loop
pub mod Command
pub mod Interrupt
use postgrest_conformance.Base.{
  ℕ, suc, zero, Bool, true, false, not, ◌&&◌, ◌||◌, List, [], ◌∷◌, ◌++◌, Option, none, some,
  if◌then◌else◌, keep, is_empty, any, leb,
}
use postgrest_conformance.Base.Text.{Bytes, codes, str_eq}
use postgrest_conformance.Base.Assoc.{Assoc, insert, mem}
use postgrest_conformance.Base.Int.{ℤ, int_eq, int_le}
use postgrest_conformance.Base.Result.{Result, ok, err}
use postgrest_conformance.Base.Sort.{sort}
use postgrest_conformance.Cases.{Case, Kind, http, cli}
use postgrest_conformance.System.{Failure}
use postgrest_conformance.Route.{Val, Placement, RouteError}
use postgrest_conformance.Report.{CaseResult}

-- `sharedGroupOrder`
abbrev pub shared_group_order : List Bytes
shared_group_order =
    codes "test"
    ∷ codes "config"
    ∷ codes "domain_representations"
    ∷ codes "headers"
    ∷ codes "mutations"
    ∷ codes "observability"
    ∷ codes "operators"
    ∷ codes "ordering"
    ∷ codes "pagination"
    ∷ codes "representations"
    ∷ codes "rpc"
    ∷ codes "auth"
    ∷ codes "multi"
    ∷ codes "unicode"
    ∷ []

-- `withConnUserAnon`
unfoldable pub with_conn_user_anon : Assoc Bytes → Bytes → Bytes → Assoc Bytes
unfolding str_eq insert
with_conn_user_anon base name user =
    if str_eq name (codes "auth") then base else insert (codes "PGRST_DB_ANON_ROLE") user base

-- `toResult`
unfoldable pub to_result {ℓ} : {F : Type ℓ} → Case → Bytes → List F → CaseResult F
to_result c placement failures = record {
  id = c.id;
  feature = c.feature;
  area = c.area;
  placement = placement;
  pass = is_empty failures;
  failures = failures;
  source = c.source;
}

unfoldable pub int_in : ℤ → List ℤ → Bool
unfolding int_eq
int_in n [] = false
int_in n (m ∷ ms) = int_eq m n || int_in n ms

-- a nil set is no filter
abbrev pub wanted_id : Option (List ℤ) → ℤ → Bool
wanted_id none n = true
wanted_id (some ids) n = int_in n ids

abbrev pub wanted_area : Option (List Bytes) → Bytes → Bool
wanted_area none a = true
wanted_area (some areas) a = mem a areas

-- `filterCases`; with no filter the loop keeps every case, which is the early return
unfoldable pub filter_cases : List Case → Option (List ℤ) → Option (List Bytes) → List Case
unfolding int_in
filter_cases all ids areas = keep (λ c. wanted_id ids c.id && wanted_area areas c.area) all

abbrev pub runs : Bool → Bool → Kind → Bool
runs skip_cli skip_http cli = not skip_cli
runs skip_cli skip_http http = not skip_http

-- `effectiveSelection`; with no skip the loop keeps every case, which is the early return
unfoldable pub effective_selection : List Case → Bool → Bool → List Case
effective_selection selected skip_cli skip_http =
    keep (λ c. runs skip_cli skip_http c.request.kind) selected

pub data RunError : Type 0 where
  no_cases_selected interrupted : RunError
  invalid_id : Bytes → RunError
  unroutable : RouteError → RunError
  not_reset : Failure → RunError
  not_written : Bytes → RunError
  cases_failed : ℕ → RunError

-- `checkSelection`
unfoldable pub check_selection : List Case → Result RunError (Unit {0})
check_selection [] = err no_cases_selected
check_selection (c ∷ cs) = ok tt

-- `noResultsError`, of whether the context was cancelled
unfoldable pub no_results_error : Bool → RunError
no_results_error cancelled = if cancelled then interrupted else no_cases_selected

-- `httpGroup`; its cases are the first one, which it is made for, and those that join it
pub record HttpGroup : Type 0 where
  pub key : Bytes
  pub base : Bytes
  pub overlay : Assoc Val
  pub safe_update : Bool
  pub shared : Bool
  pub first : Case
  pub later : List Case

abbrev pub cases_of : HttpGroup → List Case
cases_of g = g.first ∷ g.later

-- `isSharedGroupKey`
unfoldable pub is_shared_group_key : Bytes → Bool
unfolding str_eq
is_shared_group_key key = mem key shared_group_order

unfoldable pub rank_in : Bytes → List Bytes → ℕ
unfolding str_eq
rank_in key [] = 0
rank_in key (s ∷ ss) = if str_eq s key then 0 else suc (rank_in key ss)

-- `sharedGroupRank`
unfoldable pub shared_group_rank : Bytes → ℕ
unfolding rank_in
shared_group_rank key = rank_in key shared_group_order

-- one turn of the loop of `minCaseID`
unfoldable pub min_id : ℤ → List Case → ℤ
unfolding int_le
min_id least [] = least
min_id least (c ∷ cs) = min_id (if int_le least c.id then least else c.id) cs

-- `minCaseID`
unfoldable pub min_case_id : HttpGroup → ℤ
unfolding min_id
min_case_id g = min_id g.first.id g.later

unfoldable pub new_group : Placement → Case → HttpGroup
unfolding is_shared_group_key
new_group p c = record {
  key = p.group_key;
  base = p.base;
  overlay = p.overlay;
  safe_update = p.safe_update;
  shared = is_shared_group_key p.group_key;
  first = c;
  later = [];
}

-- `byKey`, in the order of `keyOrder`, with one case more
unfoldable pub join_group : Placement → Case → List HttpGroup → List HttpGroup
unfolding new_group str_eq
join_group p c [] = new_group p c ∷ []
join_group p c (g ∷ gs) =
    if str_eq g.key p.group_key
    then record g { later = g.later ++ c ∷ [] } ∷ gs
    else g ∷ join_group p c gs

abbrev pub if_http {ℓ} : {A : Type ℓ} → Kind → A → A → A
if_http http x y = x
if_http cli x y = y

-- one turn of the first loop of `groupsInOrder`
unfoldable pub bucket_case : Option Placement → Case → List HttpGroup → List HttpGroup
unfolding join_group
bucket_case none c gs = gs
bucket_case (some p) c gs = if_http p.kind (join_group p c gs) gs

unfoldable pub bucket : (ℤ → Option Placement) → List HttpGroup → List Case → List HttpGroup
unfolding bucket_case
bucket placements gs [] = gs
bucket placements gs (c ∷ cs) = bucket placements (bucket_case (placements c.id) c gs) cs

abbrev pub rank_le : HttpGroup → HttpGroup → Bool
rank_le a b = leb (shared_group_rank a.key) (shared_group_rank b.key)

abbrev pub min_id_le : HttpGroup → HttpGroup → Bool
min_id_le a b = int_le (min_case_id a) (min_case_id b)

-- `groupsInOrder`
unfoldable pub groups_in_order : (ℤ → Option Placement) → List Case → List HttpGroup
unfolding bucket sort
groups_in_order placements selected =
    let groups = bucket placements [] selected in
    sort rank_le (keep (λ g. g.shared) groups) ++ sort min_id_le (keep (λ g. not g.shared) groups)
