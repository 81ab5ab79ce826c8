-- ===== src/Subscription.antt =====
-- Subscriptions to notifications: subscription.c, subscription.h, and send_notification of cmd_server.c.
pub mod Delivery
mod Tests
use ubervisor.Common.{
  ℕ, zero, suc, ◌+◌, ◌-◌, ◌%◌, ◌^◌, bit_and, Bool, true, false, not, ◌&&◌, List, [], ◌∷◌, ◌++◌,
  Option, none, some, ltb, ◌==◌, if◌then◌else◌, Str, length,
}
use ubervisor.Common.Int.{ℤ, pos, negsuc}
use ubervisor.Wire.{chunksiz, htons, raw16, Bufferevent, write_chunk}
use ubervisor.Server.Heap.{update}

-- SUBS_SERVER, SUBS_STATUS and SUBS_GROUP_CFG of subscription.h
abbrev pub subs_server : ℕ
subs_server = 1

abbrev pub subs_status : ℕ
subs_status = 2

abbrev pub subs_group_cfg : ℕ
subs_group_cfg = 4

-- `struct subscription`: the address of a client, and two `uint16_t`.
pub record Subscription : Type 0 where
  pub s_client : ℕ
  pub s_ident : ℕ
  pub s_cid : ℕ

-- An `int` that is stored in a `uint16_t`.
abbrev pub to_uint16 : ℤ → ℕ
to_uint16 (pos n) = n % 2 ^ 16
to_uint16 (negsuc n) = 2 ^ 16 - 1 - n % 2 ^ 16

-- LIST_INSERT_HEAD
unfoldable pub subscription_insert : Subscription → List Subscription → List Subscription
subscription_insert s l = s ∷ l

-- The loop over the list, which keeps the next entry before it frees one.
unfoldable pub subscription_remove_for_client : ℕ → List Subscription → List Subscription
subscription_remove_for_client c [] = []
subscription_remove_for_client c (s ∷ l) =
    let rest = subscription_remove_for_client c l in if s.s_client == c then rest else s ∷ rest

-- `(s->s_ident & n) != 0`
unfoldable pub asks_for : ℕ → Subscription → Bool
asks_for n s = not (bit_and s.s_ident n == 0)

module _ (lib : Bufferevent) where
  open lib use {Handle}

  -- One round of the loop of send_notification. `be` gives `c_be` of each client.
  unfoldable pub notify_one : ℕ → Str → Subscription → (ℕ → Handle) → ℕ → Handle
  notify_one n ret s be =
      if asks_for n s
      then update be s.s_client
          (write_chunk lib (be s.s_client) (htons (length ret)) (raw16 s.s_cid) ret).1
      else be

  unfoldable pub notify_all : ℕ → Str → List Subscription → (ℕ → Handle) → ℕ → Handle
  notify_all n ret [] be = be
  notify_all n ret (s ∷ l) be = notify_all n ret l (notify_one n ret s be)

  -- `none` where the assertion on the length fails.
  unfoldable pub send_notification :
      ℕ → Str → List Subscription → (ℕ → Handle) → Option (ℕ → Handle)
  send_notification n ret l be =
      if ltb chunksiz (length ret) then none else some (notify_all n ret l be)
