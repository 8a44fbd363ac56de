-- ===== src/Auth/Selection.antt =====
-- What the authenticator selects: a method of both sides, whatever the order of the hash tables.
use lurk.Error.{gss_api, password, ok, LurkAuthMethod}
use lurk.Auth.{
  insert, authenticate_connection, new, select_auth_method, nth_0, method_eq, MethodSet, HashOrder,
  collect, LurkAuthenticator, intersection, contains,
}
use lurk.Common.{
  inl, inr, Bool-cases, ◌||◌, ◌∙◌, sym, ◌↔◌, arith, filter_by, ◌≡◌, refl, Bool, true, false, ◌&&◌,
  List, [], ◌∷◌, Option, none, some,
}

method_eq_iff : (a b : LurkAuthMethod) → (method_eq a b ≡ true) ↔ (a ≡ b)
unfolding method_eq
method_eq_iff LurkAuthMethod.none LurkAuthMethod.none = ground arith
method_eq_iff gss_api gss_api = ground arith
method_eq_iff password password = ground arith
method_eq_iff _ _ = ground arith

pub contains-filter_by :
    (p : LurkAuthMethod → Bool) (set : MethodSet) (m : LurkAuthMethod)
    → contains (filter_by p set) m ≡ (contains set m && p m)
unfolding contains
contains-filter_by p [] m = refl
contains-filter_by p (x ∷ set) m = ground (arith, contains-filter_by p set m, method_eq_iff x m)

pub contains-insert :
    (a m : LurkAuthMethod) (set : MethodSet)
    → contains (insert a set) m ≡ (method_eq a m || contains set m)
unfolding contains insert
contains-insert a m set = elim (Bool-cases (contains set a)) [
  | inr e ↦ rw e
  | inl e ↦
      rw (insert, e)
        (elim (Bool-cases (method_eq a m)) [
          | inr k ↦ rw k
          | inl k ↦ rw (k, ← (method_eq_iff a m).0 k, e)
        ])
]

pub contains-collect :
    (ms : List LurkAuthMethod) (m : LurkAuthMethod) → contains (collect ms) m ≡ contains ms m
unfolding contains collect
contains-collect [] m = refl
contains-collect (x ∷ ms) m =
    ground (arith, contains-collect ms m, contains-collect ms x, method_eq_iff x m)

pub contains-intersection :
    (order : HashOrder) (a b : MethodSet) (m : LurkAuthMethod)
    → contains (intersection order a b) m ≡ (contains a m && contains b m)
unfolding intersection
contains-intersection order a b m = ground (
  arith,
  contains-filter_by (contains b) (order.iter a) m,
  contains-filter_by (contains a) (order.iter b) m,
  order.visits a m,
  order.visits b m,
)

-- Is the method one that both the authenticator and the peer have?
abbrev pub is_common : LurkAuthenticator → MethodSet → LurkAuthMethod → Bool
is_common a peer m = contains a.available_methods m && contains peer m

-- What selecting should find: a common method, or that there is none.
abbrev pub Agreed : LurkAuthenticator → MethodSet → Option LurkAuthMethod → Type 0
Agreed a peer none = (m : LurkAuthMethod) → is_common a peer m ≡ false
Agreed a peer (some m) = is_common a peer m ≡ true

-- The first element of a list, and what it says of the list's elements.
FirstOf : List LurkAuthMethod → Option LurkAuthMethod → Type 0
FirstOf xs none = (m : LurkAuthMethod) → contains xs m ≡ false
FirstOf xs (some m) = contains xs m ≡ true

nth_0-FirstOf : (xs : List LurkAuthMethod) → FirstOf xs (nth_0 xs)
unfolding contains FirstOf
nth_0-FirstOf [] = λ m. refl
nth_0-FirstOf (x ∷ xs) = ground (arith, method_eq_iff x x)

FirstOf-Agreed :
    (a : LurkAuthenticator) (peer : MethodSet) (xs : List LurkAuthMethod)
    → ((m : LurkAuthMethod) → contains xs m ≡ is_common a peer m)
    → (r : Option LurkAuthMethod) → FirstOf xs r
    → Agreed a peer r
unfolding FirstOf
FirstOf-Agreed a peer xs same none h = λ m. sym (same m) ∙ h m
FirstOf-Agreed a peer xs same (some m) h = sym (same m) ∙ h

-- Whatever the sets of methods and the order in which the hash tables visit them,
-- `select_auth_method` returns a method that the authenticator and the peer have in common, or
-- nothing if there is none; it records what it returns as the selected method, and keeps the
-- available methods.
pub select_auth_method-Agreed :
    (order : HashOrder) (a : LurkAuthenticator) (peer : MethodSet)
    → Agreed a peer (select_auth_method order a peer).1
      × ((select_auth_method order a peer).0
          ≡ record a { selected_method = (select_auth_method order a peer).1 })
unfolding select_auth_method
select_auth_method-Agreed order a peer =
    let common = intersection order a.available_methods peer in
    let same = λ (m : LurkAuthMethod).
      order.visits (collect common) m
      ∙ contains-collect common m
      ∙ contains-intersection order a.available_methods peer m in
    (FirstOf-Agreed a peer (order.iter (collect common)) same _ (nth_0-FirstOf _), refl)

abbrev pub answer : Bool → Option LurkAuthMethod
answer true = some LurkAuthMethod.none
answer false = none

answer_of_Agreed :
    (peer : MethodSet) (r : Option LurkAuthMethod)
    → Agreed new peer r
    → r ≡ answer (contains peer LurkAuthMethod.none)
unfolding new contains
answer_of_Agreed peer none h = cc (h LurkAuthMethod.none)
answer_of_Agreed peer (some LurkAuthMethod.none) h = cc
answer_of_Agreed peer (some gss_api) h = cc
answer_of_Agreed peer (some password) h = cc

-- With the methods that the program supports, the answer depends on nothing but whether the peer
-- offers `None`.
pub select_auth_method-new :
    (order : HashOrder) (peer : MethodSet)
    → (select_auth_method order new peer).1 ≡ answer (contains peer LurkAuthMethod.none)
select_auth_method-new order peer =
    answer_of_Agreed peer _ (select_auth_method-Agreed order new peer).0

-- `authenticate_connection` accepts a connection exactly when `None` was selected.
authenticate_connection_iff :
    (a : LurkAuthenticator)
    → (authenticate_connection a ≡ ok tt) ↔ (a.selected_method ≡ some LurkAuthMethod.none)
unfolding authenticate_connection
authenticate_connection_iff a = ground arith
