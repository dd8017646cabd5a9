-- ===== src/Ingestion/Registry.antt =====
-- src/wapp_planner/ingestion/client_registry.py
use whatsapp_automatic_plann.Prelude.{
  ◌≡◌, refl, Bool, true, false, String, Option, none, some, List, [], ◌∷◌, arith, contains, ◌==◌,
  if◌then◌else◌,
}
use whatsapp_automatic_plann.Prelude.Dict.{Dict, lookup, insert, lookup-insert}
use whatsapp_automatic_plann.Domain.Models.{Client, owns_number}

pub record ClientRegistry : Type 0 where
  pub by_phone : Dict Client
  pub by_id : Dict Client

-- `for phone in client.phone_numbers: self._by_phone[phone] = client`
unfoldable pub put_phones : List String → Client → Dict Client → Dict Client
put_phones [] client d = d
put_phones (phone ∷ phones) client d = put_phones phones client (insert phone client d)

unfoldable pub put_clients : List Client → ClientRegistry → ClientRegistry
unfolding put_phones
put_clients [] registry = registry
put_clients (client ∷ clients) registry = put_clients clients (record {
  by_phone = put_phones client.phone_numbers client registry.by_phone;
  by_id = insert client.id client registry.by_id;
})

-- `ClientRegistry.__init__`
unfoldable pub registry_of : List Client → ClientRegistry
registry_of clients = put_clients clients (record { by_phone = []; by_id = [] })

unfoldable pub resolve : String → ClientRegistry → String × String × Bool
resolve phone registry = elim (lookup phone registry.by_phone) [
  | some client ↦ (client.id, client.name, true)
  | none ↦ (phone, phone, false)
]

unfoldable pub name_for : String → ClientRegistry → String
name_for client_id registry = elim (lookup client_id registry.by_id) [
  | some client ↦ client.name
  | none ↦ client_id
]

-- The last of the clients that has the number.
abbrev pub last_owner : String → List Client → Option Client
last_owner phone [] = none
last_owner phone (c ∷ cs) = elim (last_owner phone cs) [
  | some d ↦ some d
  | none ↦ if owns_number c phone then some c else none
]

-- The last of the clients with the id.
abbrev pub last_with_id : String → List Client → Option Client
last_with_id id [] = none
last_with_id id (c ∷ cs) = elim (last_with_id id cs) [
  | some d ↦ some d
  | none ↦ if id == c.id then some c else none
]

lookup-put_phones :
    (k : String) (phones : List String) (client : Client) (d : Dict Client)
    → lookup k (put_phones phones client d)
      ≡ (if contains k phones then some client else lookup k d)
unfolding put_phones
lookup-put_phones k [] client d = refl
lookup-put_phones k (phone ∷ phones) client d = ground (
  arith,
  lookup-put_phones k phones client (insert phone client d),
  lookup-insert k phone client d,
)

lookup-put_clients :
    (k : String) (clients : List Client) (registry : ClientRegistry)
    → (lookup k (put_clients clients registry).by_phone
        ≡ elim (last_owner k clients) [ some c ↦ some c | none ↦ lookup k registry.by_phone ])
      × (lookup k (put_clients clients registry).by_id
          ≡ elim (last_with_id k clients) [ some c ↦ some c | none ↦ lookup k registry.by_id ])
unfolding put_clients owns_number
lookup-put_clients k [] registry = (refl, refl)
lookup-put_clients k (client ∷ clients) registry =
    let next : ClientRegistry = record {
      by_phone = put_phones client.phone_numbers client registry.by_phone;
      by_id = insert client.id client registry.by_id;
    } in
    ground (
      arith,
      lookup-put_clients k clients next,
      lookup-put_phones k client.phone_numbers client registry.by_phone,
      lookup-insert k client.id client registry.by_id,
    )

-- A number resolves to the last configured client that has it, and to itself, as unknown, if none
-- has it; and an id is shown as the name of the last client with it, or as itself.
pub resolve-registry_of :
    (k : String) (clients : List Client)
    → (resolve k (registry_of clients)
        ≡ elim (last_owner k clients) [ some c ↦ (c.id, c.name, true) | none ↦ (k, k, false) ])
      × (name_for k (registry_of clients)
          ≡ elim (last_with_id k clients) [ some c ↦ c.name | none ↦ k ])
unfolding resolve name_for registry_of lookup
resolve-registry_of k clients =
    ground (arith, lookup-put_clients k clients (record { by_phone = []; by_id = [] }))
