-- ===== src/WebSocket/Handshake.antt =====
-- onUpgrade: what is accepted, and the answer.
use goev.Prelude.{
  ℕ, zero, ◌<◌, ◌≡◌, Bool, true, false, Option, some, List, [], ◌∷◌, ◌++◌, length, ok, ◌⊎◌,
}
use goev.Address.{bytes_equal}
use goev.Http.Text.{equal_fold}
use goev.WebSocket.Upgrade.{
  Field, request_headers, response, Upgradable, connection_name, upgrade_name, websocket_name,
  version_name, thirteen, key_name,
}

-- The bytes of the request are read to an end.
abbrev Finds : Option (List Field) → Type 0
Finds o = zero ≡ zero

-- One of the headers has the property.
abbrev pub AnyOf : (Field → Type 0) → List Field → Type 0
AnyOf P [] = ⊥
AnyOf P (h ∷ hs) = P h ⊎ AnyOf P hs

-- A header of that name, whatever the case of its letters, with such a value.
abbrev pub Says : List ℕ → List ℕ → Field → Type 0
Says name value (n, v) = (equal_fold n name ≡ true) × (equal_fold v value ≡ true)

abbrev pub IsExactly : List ℕ → List ℕ → Field → Type 0
IsExactly name value (n, v) = (equal_fold n name ≡ true) × (bytes_equal v value ≡ true)

abbrev pub Gives : List ℕ → List ℕ → Field → Type 0
Gives name value (n, v) = (equal_fold n name ≡ true) × (v ≡ value)

-- The headers ask for an upgrade to this version of the protocol, with this key.
pub record Asks (headers : List Field) (key : List ℕ) : Type 0 where
  pub connection : AnyOf (Says connection_name upgrade_name) headers
  pub upgrade : AnyOf (Says upgrade_name websocket_name) headers
  pub version : AnyOf (IsExactly version_name thirteen) headers
  pub has_key : AnyOf (Gives key_name key) headers
  pub some_key : 0 < length key

module _ (accept_key : List ℕ → List ℕ) where
  -- What an accepted request has: its headers ask for the upgrade, and its answer is for their key.
  pub record Accepted (buf : List ℕ) (u u' : Upgradable) : Type 0 where
    pub headers : List Field
    pub found : request_headers buf ≡ ok (some headers)
    pub key : List ℕ
    pub protocols : List (List ℕ)
    pub asks : Asks headers key
    pub answered : u'.conn.sent ≡ u.conn.sent ++ (response (accept_key key) protocols ∷ [])
    pub upgraded : u'.upgraded ≡ true

  -- An accepted request is one that asks for the upgrade; another gets no answer, and no upgrade.
  pub data Ended (buf : List ℕ) (u : Upgradable) : Bool × Upgradable → Type 0 where
    accepts : {u' : Upgradable} → Accepted buf u u' → Ended buf u (true, u')
    refuses :
        {u' : Upgradable}
        → u'.conn.sent ≡ u.conn.sent
        → u'.upgraded ≡ u.upgraded
        → Ended buf u (false, u')
