-- ===== src/Extern/Tables.antt =====
-- github.com/tychoish/fun/adt and pubsub, as the dispatcher of x/router uses them.
use sardis.Common.{
  Bool, true, Option, none, some, ◌≡◌, refl, List, [], ◌∷◌, ◌++◌, Comparable, ◌==◌, if◌then◌else◌,
}
use sardis.Common.Maps.{load, store, load-store, load-empty}

-- `adt.Map`: `Store` writes, `Set` writes too and reports something of the key, `Load` reads.
pub record Table (K V : Type 0) ⦃c : Comparable K⦄ : Type 1 where
  pub Map : Type 0
  pub empty : Map
  pub get : K → Map → Option V
  pub put : K → V → Map → Map
  pub set : K → V → Map → Map × Bool
  get-empty : (k : K) → get k empty ≡ none
  get-put : (k j : K) (v : V) (m : Map) → get j (put k v m) ≡ (if k == j then some v else get j m)
  get-set : (k j : K) (v : V) (m : Map) → get j (set k v m).0 ≡ (if k == j then some v else get j m)

-- `adt.Map` of unlimited `pubsub.Deque`s, made for a key on first use: `Get(k).PushBack(x)`
-- writes, and `Load(k)` with `IteratorFront` reads the items in the order of their pushes, while
-- the context lives.
pub record Chains (K A : Type 0) ⦃c : Comparable K⦄ : Type 1 where
  pub State : Type 0
  pub empty : State
  pub items : K → State → List A
  pub push : K → A → State → State
  items-empty : (k : K) → items k empty ≡ []
  pub items-push :
      (k j : K) (x : A) (s : State)
      → items j (push k x s) ≡ (if k == j then items j s ++ x ∷ [] else items j s)

-- Association lists, and functions from keys to lists.
module _ {K V : Type 0} ⦃c : Comparable K⦄ where
  abbrev pub list_table : Table K V
  list_table = record {
    Map = List (K × V);
    empty = [];
    get = load;
    put = store;
    set = λ k v m. (store k v m, true);
    get-empty = load-empty;
    get-put = load-store;
    get-set = load-store;
  }

  abbrev pub list_chains : Chains K V
  list_chains = record {
    State = K → List V;
    empty = λ k. [];
    items = λ k s. s k;
    push = λ k x s j. if k == j then s j ++ x ∷ [] else s j;
    items-empty = λ k. refl;
    items-push = λ k j x s. refl;
  }
