-- ===== src/Auth/Tests.antt =====
-- The theorems on the authenticator at concrete inputs.
use mathlib.Core.Quot
use lurk.Auth.AbstractSets.{has, meet, select_auth_method-has, Methods}
use lurk.Error.{LurkAuthMethod, gss_api, password}
use lurk.Auth.Selection.{answer, select_auth_method-Agreed, Agreed}
use lurk.Auth.{
  intersection, method_eq, insert, new, contains, select_auth_method, LurkAuthenticator, HashOrder,
  MethodSet,
}
use lurk.Common.{[], ◌∷◌, ◌≡◌, refl, none, some}

abbrev offers_two : MethodSet
offers_two = password ∷ LurkAuthMethod.none ∷ []

abbrev in_order : HashOrder
in_order = record { iter = λ set. set; visits = λ set m. refl; length_iter = λ set. refl }

abbrev two_sided : LurkAuthenticator
two_sided = record { available_methods = gss_api ∷ password ∷ []; selected_method = none }

picked_password : (select_auth_method in_order two_sided offers_two).1 ≡ some password
unfolding select_auth_method contains insert method_eq
picked_password = refl

select_auth_method-Agreed_example :
    Agreed two_sided offers_two (select_auth_method in_order two_sided offers_two).1
    × ((select_auth_method in_order two_sided offers_two).0 ≡ record two_sided {
      selected_method = (select_auth_method in_order two_sided offers_two).1;
    })
select_auth_method-Agreed_example = select_auth_method-Agreed in_order two_sided offers_two

select_auth_method-has_example :
    (◌≡◌ {A = Methods}
      (Quot.mk (intersection in_order two_sided.available_methods offers_two))
      (meet two_sided.available_methods (Quot.mk offers_two)))
    × ((select_auth_method in_order new offers_two).1
        ≡ answer (has LurkAuthMethod.none (Quot.mk offers_two)))
select_auth_method-has_example =
    select_auth_method-has in_order two_sided.available_methods offers_two
