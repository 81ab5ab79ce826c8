-- ===== src/Command/Subs.antt =====
-- c_subs, c_helo and c_exit of cmd_server.c, and the connections of the server.
use ubervisor.Common.{
  ℕ, Bool, true, false, not, List, [], ◌∷◌, Option, none, some, ◌≡◌, refl, inl, inr, arith, bit_and,
  ◌==◌, ==_iff, ◌&&◌, if◌then◌else◌, Bool-cases, Option-cases, Str, codes, remove_first, All,
  All-map, ◌⊎◌,
}
use ubervisor.Common.Int.{ℤ}
use ubervisor.Json.{JsonType, JsonC}
use ubervisor.Subscription.{
  Subscription, to_uint16, subscription_insert, subscription_remove_for_client, asks_for,
}
use ubervisor.Subscription.Delivery.{subscribed}
use ubervisor.Server.{Server, emit, replied}
use ubervisor.Server.Alive.{IsAlive}
use ubervisor.Command.{Disk, parse_object, send_status_msg, c_dump}
use ubervisor.Command.Groups.{same-IsAlive}

-- The end of accept_cb, for a connection at an address that malloc gives.
unfoldable pub add_client : ℕ → Server → Server
add_client con s = record s { clients = con ∷ s.clients }

unfoldable pub drop_client_connection : ℕ → Server → Server
drop_client_connection con s = record s {
  clients = remove_first (λ c. c == con) s.clients;
  subscriptions = subscription_remove_for_client con s.subscriptions;
}

abbrev pub has_client : ℕ → List ℕ → Bool
has_client c [] = false
has_client c (d ∷ l) = if d == c then true else has_client c l

-- Each subscription is of a client whose connection is there, so that send_notification, which writes
-- to `s->s_client->c_be`, reads no freed memory.
abbrev pub AreHeld : List ℕ → List Subscription → Type 0
AreHeld clients subs = All (λ x. has_client x.s_client clients ≡ true) subs

abbrev pub IsLinked : Server → Type 0
IsLinked s = AreHeld s.clients s.subscriptions

-- A command comes back with its result, or has ended the server by exit.
pub data Ran : Type 0 where
  returned : Bool → Server → Ran
  exited : Server → Ran

-- The server behind a command.
abbrev pub state_of : Ran → Server
state_of (Ran.returned cr s) = s
state_of (Ran.exited s) = s

module _ (lib : JsonC) (auto_dump : Bool) (disk : Disk) where
  -- A member of a request, where it is an int.
  unfoldable pub parse_int : lib.Json → Str → Option ℤ
  parse_int obj k = elim (lib.json_object_object_get obj k) [
    | none ↦ none
    | some m ↦
        if not (lib.json_object_is_type m JsonType.int)
        then none
        else some (lib.json_object_get_int m)
  ]

  unfoldable pub subscribe : ℕ → ℕ → ℤ → Server → Server
  subscribe con cid ident s =
      let subs : Subscription = record { s_client = con; s_ident = to_uint16 ident; s_cid = cid } in
      send_status_msg lib auto_dump disk true (codes "success")
        (record s { subscriptions = subscription_insert subs s.subscriptions })

  unfoldable pub c_subs : ℕ → ℕ → Str → Server → Bool × Server
  c_subs con cid buf s = elim (parse_object lib auto_dump disk buf) [
    | none ↦ (false, send_status_msg lib auto_dump disk false (codes "failure") s)
    | some obj ↦ elim (parse_int obj (codes "ident")) [
      | none ↦ (false, send_status_msg lib auto_dump disk false (codes "failure") s)
      | some ident ↦ (true, subscribe con cid ident s)
    ]
  ]

  -- `UV_VERSION DEBUG_VERSION` comes from the build.
  unfoldable pub c_helo : Str → Server → Bool × Server
  c_helo version s =
      let obj =
        lib.json_object_object_add lib.json_object_new_object (codes "code")
          (lib.json_object_new_boolean true) in
      let obj₂ =
        lib.json_object_object_add obj (codes "msg") (lib.json_object_new_string (codes "ok")) in
      let obj₃ =
        lib.json_object_object_add obj₂ (codes "version") (lib.json_object_new_string version) in
      (true, emit (replied (lib.json_object_to_json_string obj₃)) s)

  unfoldable pub c_exit : Bool → Server → Ran
  c_exit allow_exit s =
      if not allow_exit
      then returned true (send_status_msg lib auto_dump disk false (codes "prohibited") s)
      else exited (
          if not auto_dump
          then send_status_msg lib auto_dump disk true (codes "exiting") s
          else (c_dump lib auto_dump disk s).1)

held-add :
    (c : ℕ) (clients : List ℕ) (subs : List Subscription)
    → AreHeld clients subs
    → AreHeld (c ∷ clients) subs
held-add c clients subs held = All-map subs (λ x h. ground arith) held

has_client-remove :
    (c d : ℕ) (clients : List ℕ)
    → (d == c) ≡ false
    → has_client d clients ≡ true
    → has_client d (remove_first (λ x. x == c) clients) ≡ true
unfolding remove_first
has_client-remove c d [] other h = h
has_client-remove c d (e ∷ clients) other h = elim (Bool-cases (e == c)) [
  | inl same ↦ ground (arith, ==_iff e c, ==_iff e d, ==_iff d c)
  | inr kept ↦ ground (arith, has_client-remove c d clients other)
]

held-remove :
    (c : ℕ) (clients : List ℕ) (subs : List Subscription)
    → AreHeld clients subs
    → AreHeld (remove_first (λ x. x == c) clients) (subscription_remove_for_client c subs)
unfolding subscription_remove_for_client
held-remove c clients [] held = held
held-remove c clients (s ∷ subs) held = elim (Bool-cases (s.s_client == c)) [
  | inl gone ↦ rw gone (held-remove c clients subs held.1)
  | inr kept ↦
      rw kept
        (has_client-remove c s.s_client clients kept held.0, held-remove c clients subs held.1)
]

pub add_client-IsLinked : (con : ℕ) (s : Server) → IsLinked s → IsLinked (add_client con s)
unfolding add_client
add_client-IsLinked con s linked = held-add con s.clients s.subscriptions linked

pub drop_client_connection-IsLinked :
    (con : ℕ) (s : Server) → IsLinked s → IsLinked (drop_client_connection con s)
unfolding drop_client_connection
drop_client_connection-IsLinked con s linked = held-remove con s.clients s.subscriptions linked

module _ (lib : JsonC) (auto_dump : Bool) (disk : Disk) (con cid : ℕ) (s : Server) where
  pub c_subs-IsLinked :
      (buf : Str)
      → has_client con s.clients ≡ true
      → IsLinked s
      → IsLinked (c_subs lib auto_dump disk con cid buf s).1
  unfolding c_subs subscribe send_status_msg emit subscription_insert
  c_subs-IsLinked buf there linked = grind arith

  pub c_subs-IsAlive : (buf : Str) → IsAlive s → IsAlive (c_subs lib auto_dump disk con cid buf s).1
  unfolding c_subs subscribe send_status_msg emit
  c_subs-IsAlive buf alive = same-IsAlive s _ (ground arith) alive

  -- c_subs either subscribes the client, under the cid of the request and with the bits of the ident that
  -- fit 16 bits, ahead of the subscriptions that were there, and keeps the connection; or it leaves the
  -- subscriptions alone and drops the connection.
  pub c_subs-cases :
      (buf : Str)
      → (((c_subs lib auto_dump disk con cid buf s).0 ≡ false)
          × ((c_subs lib auto_dump disk con cid buf s).1.subscriptions ≡ s.subscriptions))
        ⊎ ((ident : ℤ) × ((c_subs lib auto_dump disk con cid buf s).0 ≡ true)
            × ((c n : ℕ)
                → subscribed c n (c_subs lib auto_dump disk con cid buf s).1.subscriptions ≡ (
                    if con == c && not (bit_and (to_uint16 ident) n == 0)
                    then record { s_client = con; s_ident = to_uint16 ident; s_cid = cid }
                      ∷ subscribed c n s.subscriptions
                    else subscribed c n s.subscriptions)))
  unfolding c_subs subscribe send_status_msg emit subscription_insert asks_for
  c_subs-cases buf = elim (Option-cases (parse_object lib auto_dump disk buf)) [
    | inl bad ↦ rw (c_subs, bad) (inl (refl, refl))
    | inr (obj, good) ↦
        rw (c_subs, good)
          (elim (Option-cases (parse_int lib auto_dump disk obj (codes "ident"))) [
            | inl bad ↦ rw bad (inl (refl, refl))
            | inr (ident, got) ↦ rw got (inr (ident, refl, λ c n. refl))
          ])
  ]
