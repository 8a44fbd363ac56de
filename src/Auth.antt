-- ===== src/Auth.antt =====
-- auth.rs: the authenticator, and the hash sets of methods that it works with.
pub mod Selection
pub mod AbstractSets
mod Tests
use lurk.Common.{
  ℕ, ◌≡◌, Bool, true, false, ◌||◌, List, [], ◌∷◌, Option, none, some, leb, length, if◌then◌else◌,
  filter_by,
}
use lurk.Error.{
  LurkAuthMethod, gss_api, password, unsupported_auth_method, lurk_error, method_not_selected,
  Result, ok, err,
}

-- `LurkAuthMethod` derives `PartialEq`.
unfoldable pub method_eq : LurkAuthMethod → LurkAuthMethod → Bool
method_eq LurkAuthMethod.none LurkAuthMethod.none = true
method_eq gss_api gss_api = true
method_eq password password = true
method_eq _ _ = false

-- `HashSet<LurkAuthMethod>`: the methods in it, without repetition.
abbrev pub MethodSet : Type 0
MethodSet = List LurkAuthMethod

unfoldable pub contains : MethodSet → LurkAuthMethod → Bool
unfolding method_eq
contains [] m = false
contains (x ∷ set) m = method_eq x m || contains set m

unfoldable pub insert : LurkAuthMethod → MethodSet → MethodSet
unfolding contains
insert m set = if contains set m then set else m ∷ set

unfoldable pub collect : List LurkAuthMethod → MethodSet
unfolding insert
collect [] = []
collect (m ∷ ms) = insert m (collect ms)

-- The order in which a hash table visits its elements: any, but each is visited, and once, and
-- nothing else.
pub record HashOrder : Type 0 where
  pub iter : MethodSet → MethodSet
  pub visits : (set : MethodSet) (m : LurkAuthMethod) → contains (iter set) m ≡ contains set m
  pub length_iter : (set : MethodSet) → length (iter set) ≡ length set

-- `HashSet::intersection` visits the smaller of the sets.
unfoldable pub intersection : HashOrder → MethodSet → MethodSet → MethodSet
unfolding contains
intersection order a b =
    if leb (length a) (length b)
    then filter_by (contains b) (order.iter a)
    else filter_by (contains a) (order.iter b)

abbrev pub nth_0 : List LurkAuthMethod → Option LurkAuthMethod
nth_0 [] = none
nth_0 (m ∷ ms) = some m

pub record LurkAuthenticator : Type 0 where
  pub available_methods : MethodSet
  pub selected_method : Option LurkAuthMethod

abbrev supported_auth_methods : List LurkAuthMethod
supported_auth_methods = LurkAuthMethod.none ∷ []

unfoldable pub new : LurkAuthenticator
unfolding collect
new = record { available_methods = collect supported_auth_methods; selected_method = none }

-- `common_methods.into_iter().nth(0)`
unfoldable pub select_auth_method :
    HashOrder → LurkAuthenticator → MethodSet → LurkAuthenticator × Option LurkAuthMethod
unfolding intersection collect
select_auth_method order a peer_methods =
    let common_methods = collect (intersection order a.available_methods peer_methods) in
    let selected = nth_0 (order.iter common_methods) in
    (record a { selected_method = selected }, selected)

unfoldable pub current_method : LurkAuthenticator → Option LurkAuthMethod
current_method a = a.selected_method

authenticate_by : Option LurkAuthMethod → Result (Unit {0})
authenticate_by (some LurkAuthMethod.none) = ok tt
authenticate_by (some method) = err (lurk_error (unsupported_auth_method method))
authenticate_by none = err method_not_selected

unfoldable pub authenticate_connection : LurkAuthenticator → Result (Unit {0})
unfolding authenticate_by current_method
authenticate_connection a = authenticate_by (current_method a)
