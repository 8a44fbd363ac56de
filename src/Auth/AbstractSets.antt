-- ===== src/Auth/AbstractSets.antt =====
-- The sets of methods as a peer offers them, without the order of their elements: a quotient.
use mathlib.Core.Quot
use mathlib.Core.Quot.{Quot, Quot-set}
use mathlib.Core.Bool.{and_comm, Bool-set}
use lurk.Auth.{contains, intersection, new, select_auth_method, HashOrder, MethodSet}
use lurk.Auth.Selection.{answer, contains-filter_by, contains-intersection, select_auth_method-new}
use lurk.Common.{ap, filter_by, sym, ◌∙◌, ◌≡◌, ◌&&◌, Bool}
use lurk.Error.{LurkAuthMethod}

abbrev SameMethods : MethodSet → MethodSet → Type 0
SameMethods a b = (m : LurkAuthMethod) → contains a m ≡ contains b m

abbrev pub Methods : Type 0
Methods = Quot SameMethods

abbrev pub has : LurkAuthMethod → Methods → Bool
has m = Quot.lift Bool-set (λ set. contains set m) (λ a b same. same m)

-- The methods of a set that are also in a list.
abbrev pub meet : MethodSet → Methods → Methods
meet a =
    Quot.lift Quot-set (λ set. Quot.mk (filter_by (contains a) set))
      (λ b b' same. Quot.sound (λ m.
        contains-filter_by (contains a) b m
        ∙ ap (λ c. c && contains a m) (same m)
        ∙ sym (contains-filter_by (contains a) b' m)))

-- The code's operations on hash sets implement those on sets, whatever the order of the tables:
-- `intersection` is the set of the common methods, and what `select_auth_method` gives with the
-- methods that the program supports is a function of the set that the peer offers: `None` if this
-- has it, and nothing otherwise.
pub select_auth_method-has :
    (order : HashOrder) (a peer : MethodSet)
    → (◌≡◌ {A = Methods} (Quot.mk (intersection order a peer)) (meet a (Quot.mk peer)))
      × ((select_auth_method order new peer).1 ≡ answer (has LurkAuthMethod.none (Quot.mk peer)))
select_auth_method-has order a peer = (
  Quot.sound (λ m.
      contains-intersection order a peer m
      ∙ and_comm (contains a m) (contains peer m)
      ∙ sym (contains-filter_by (contains a) peer m)),
  select_auth_method-new order peer,
)
