-- ===== src/Context.antt =====
-- context.go: the client in the context of a handler. A context is a chain of values under keys;
-- keys of another package never equal the key of this one.
use winter.Base.{String, ◌≡◌, refl, Option, none, some, List, [], ◌∷◌, ◌++◌, All}

-- context.WithValue on a context: the value of this package's key is a client, or nil.
pub data ContextValue (C V : Type 0) : Type 0 where
  client : Option C → ContextValue C V
  value : String → V → ContextValue C V

abbrev pub Context : Type 0 → Type 0 → Type 0
Context C V = List (ContextValue C V)

module _ {C V : Type 0} where
  unfoldable pub with_client : Context C V → Option C → Context C V
  with_client ctx c = client c ∷ ctx

  -- The nearest value under the key: nil when there is none.
  unfoldable pub client_from_context : Context C V → Option C
  client_from_context [] = none
  client_from_context (client c ∷ ctx) = c
  client_from_context (value k v ∷ ctx) = client_from_context ctx

  abbrev pub IsValue : ContextValue C V → Type 0
  IsValue (client c) = ⊥
  IsValue (value k v) = Unit

  -- A handler finds the server's client, whatever values were added to the context since.
  pub client_found :
      (c : C) (since ctx : Context C V)
      → All IsValue since
      → client_from_context (since ++ with_client ctx (some c)) ≡ some c
  unfolding client_from_context with_client
  client_found c [] ctx h = refl
  client_found c (client d ∷ since) ctx h = absurd h.0
  client_found c (value k v ∷ since) ctx h = client_found c since ctx h.1
