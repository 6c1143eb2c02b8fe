-- ===== src/Event.antt =====
-- src/event.rs: the state of an `Event`, its notifications, and its listeners.
-- The `Rc<RefCell<Inner<T>>>` that an event and its listeners share is passed from call to call.
pub mod Map
pub mod Sweep
pub mod Counts
pub mod Invariant
pub mod Listener
pub mod Notify
pub mod Reach
pub mod Single
pub mod Registered
pub mod Awake
mod Tests
pub mod Stream
use eneste_rs.Prelude.{
  ℕ, ◌+◌, ◌-◌, not, ◌||◌, Bool, true, false, List, [], ◌∷◌, ◌++◌, Option, none, some, leb, ◌==◌,
  if◌then◌else◌, length, is_some, min, usize_add, usize_sub, usize_max,
}
use Map.{BTreeMap, get, insert, remove, set_value}

-- `Waker`: the task that a call of `wake` schedules.
abbrev pub Waker : Type 0
Waker = ℕ

pub data Poll {ℓ} (A : Type ℓ) : Type ℓ where
  ready : A → Poll A
  pending : Poll A

pub record ListenerEntry {ℓ} (T : Type ℓ) : Type ℓ where
  pub waker : Option Waker
  pub value : Option T

-- `woken` is no field of the source: it lists the calls of `Waker::wake` made so far, oldest first.
pub record Inner {ℓ} (T : Type ℓ) : Type ℓ where
  pub listeners : BTreeMap (ListenerEntry T)
  pub next_id : ℕ
  pub notified : ℕ
  pub closed : Bool
  pub woken : List Waker

-- What the loop of `notify_inner` and of `notify_additional` leaves.
pub record Swept {ℓ} (T : Type ℓ) : Type ℓ where
  pub entries : BTreeMap (ListenerEntry T)
  pub count : ℕ
  pub wakers : List Waker

-- The trait `Notification`, by what its three methods return.
pub record Notification {ℓ} (T : Type ℓ) : Type ℓ where
  pub count : ℕ
  pub is_additional : Bool
  pub tag : T

-- `impl Notification for usize`
unfoldable pub usize : ℕ → Notification (Unit {0})
usize n = record { count = n; is_additional = false; tag = tt }

-- `wake` of a waker that was taken out of its entry
abbrev pub wakes : Option Waker → List Waker
wakes none = []
wakes (some w) = w ∷ []

module _ {ℓ} {T : Type ℓ} where
  -- `NotificationExt::additional` and `with`
  unfoldable pub additional : Notification T → Notification T
  additional n = record n { is_additional = true }

  unfoldable pub with_value {κ} : {V : Type κ} → Notification T → V → Notification V
  with_value n v = record { count = n.count; is_additional = n.is_additional; tag = v }

  abbrev pub entry_is_notified : ListenerEntry T → Bool
  entry_is_notified e = is_some e.value

  unfoldable pub new_with : Inner T
  new_with = record { listeners = []; next_id = 0; notified = 0; closed = false; woken = [] }

  -- `Inner::listen`, and with it `Event::listen`: the new listener is its id.
  unfoldable pub listen : Inner T → Inner T × ℕ
  listen e = (
    record e {
      listeners = insert e.next_id (record { waker = none; value = none }) e.listeners;
      next_id = usize_add e.next_id 1;
    },
    e.next_id,
  )

  unfoldable pub notify_loop : ℕ → T → ℕ → BTreeMap (ListenerEntry T) → Swept T
  notify_loop count tag notified [] = record { entries = []; count = notified; wakers = [] }
  notify_loop count tag notified ((id, entry) ∷ rest) =
      let skipped = notify_loop count tag notified rest in
      let swept = notify_loop count tag (notified + 1) rest in
      if leb count notified
      then record { entries = (id, entry) ∷ rest; count = notified; wakers = [] }
      else if entry_is_notified entry
      then record skipped { entries = (id, entry) ∷ skipped.entries }
      else record {
        entries = (id, record { waker = none; value = some tag }) ∷ swept.entries;
        count = swept.count;
        wakers = wakes entry.waker ++ swept.wakers;
      }

  -- The tail of both: `inner.notified += notified`.
  unfoldable pub notify_count : Inner T → ℕ → T → Inner T
  notify_count e count tag =
      let s = notify_loop count tag 0 e.listeners in
      record e {
        listeners = s.entries;
        notified = usize_add e.notified s.count;
        woken = e.woken ++ s.wakers;
      }

  unfoldable pub notify_inner : Inner T → Notification T → Inner T
  notify_inner e n =
      notify_count e (if n.count == usize_max then length e.listeners else n.count - e.notified)
        n.tag

  unfoldable pub notify_additional : Inner T → Notification T → Inner T
  notify_additional e n =
      notify_count e
        (if n.count == usize_max then length e.listeners else min n.count (length e.listeners))
        n.tag

  unfoldable pub notify : Inner T → Notification T → Inner T
  notify e n = if n.is_additional then notify_additional e n else notify_inner e n

  -- The loop of `Event::drop`.
  unfoldable pub take_wakers : BTreeMap (ListenerEntry T) → BTreeMap (ListenerEntry T) × List Waker
  take_wakers [] = ([], [])
  take_wakers ((id, entry) ∷ rest) =
      let (m, ws) = take_wakers rest in
      ((id, record entry { waker = none }) ∷ m, wakes entry.waker ++ ws)

  -- `Event::drop`
  unfoldable pub drop_event : Inner T → Inner T
  drop_event e =
      let (m, ws) = take_wakers e.listeners in
      record e { listeners = m; closed = true; woken = e.woken ++ ws }

  -- `EventListener::is_closed`, `is_notified` and `is_terminated`
  unfoldable pub is_closed : Inner T → Bool
  is_closed e = e.closed

  unfoldable pub is_notified : Inner T → ℕ → Bool
  is_notified e id = elim (get id e.listeners) [
    | none ↦ false
    | some entry ↦ entry_is_notified entry
  ]

  unfoldable pub is_terminated : Inner T → ℕ → Bool
  is_terminated e id = elim (get id e.listeners) [
    | none ↦ true
    | some entry ↦ entry_is_notified entry
  ]

  -- `values_mut().find(|e| !e.is_notified())`, and the writes to the entry that it finds
  unfoldable pub hand_on :
      Option T → BTreeMap (ListenerEntry T) → Option (BTreeMap (ListenerEntry T) × List Waker)
  hand_on v [] = none
  hand_on v ((id, entry) ∷ rest) =
      let further = hand_on v rest in
      if entry_is_notified entry
      then elim further [ none ↦ none | some (m, ws) ↦ some ((id, entry) ∷ m, ws) ]
      else some ((id, record { waker = none; value = v }) ∷ rest, wakes entry.waker)

  -- `EventListener::drop`
  unfoldable pub drop_listener : Inner T → ℕ → Inner T
  drop_listener e id = elim (get id e.listeners) [
    | none ↦ e
    | some entry ↦
        let left = record e { listeners = remove id e.listeners } in
        let fewer = usize_sub e.notified 1 in
        if not (entry_is_notified entry) || e.notified == 0
        then left
        else elim (hand_on entry.value left.listeners) [
          | none ↦ record left { notified = fewer }
          | some (m, ws) ↦ record left {
            listeners = m;
            notified = usize_add fewer 1;
            woken = e.woken ++ ws;
          }
        ]
  ]

  -- `EventListener::poll`; `none` is the panic of `unreachable!`.
  unfoldable pub poll : Inner T → ℕ → Waker → Option (Inner T × Poll T)
  poll e id cx = elim (get id e.listeners) [
    | none ↦ none
    | some entry ↦ elim entry.value [
      | some v ↦ some (
        record e {
          listeners = set_value id (record entry { value = none }) e.listeners;
          notified = e.notified - 1;
        },
        ready v,
      )
      | none ↦ some (
        record e { listeners = set_value id (record entry { waker = some cx }) e.listeners },
        pending,
      )
    ]
  ]
