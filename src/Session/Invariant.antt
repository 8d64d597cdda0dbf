-- ===== src/Session/Invariant.antt =====
-- What holds of the manager between any two critical sections, and the three ways in which a
-- section changes it: it writes an entry, drops keys of the table, or registers a new entry.
use shellcn.Prelude.{
  ℕ, suc, ◌≤◌, ◌<◌, ◌≡◌, refl, String, Bool, true, false, List, [], Option, none, some, arith,
  string_eq, nat_eq, Option-cases, inl, inr,
}
use shellcn.Prelude.Map.{
  Map, lookup, insert, delete, delete_if, IsMap, insert-IsMap, delete-IsMap, delete_if-IsMap,
  lookup-insert,
}
use shellcn.Prelude.Map.Each.{Each, Each-imp, Each-insert, Each-delete, Each-delete_if, Each-lookup}
use shellcn.Session.Types.{Key, key_eq, Effect, Entry, Failure, Manager}
use shellcn.Session.Registry.{count_user, register}
use shellcn.Session.Counting.{
  HasKey, Linked, count_user-insert, count_user-delete, count_user-delete_if, count_user-update,
  count_user-alloc, Linked-update, Linked-alloc,
}

-- A closed entry holds neither an upstream session nor a lease.
abbrev pub IsTidy : Entry → Type 0
IsTidy e = e.is_closed ≡ true → (e.sess ≡ none) × (e.lease ≡ none)

pub record Fits (max_channels next a : ℕ) (e : Entry) : Type 0 where
  pub below : a < next
  pub bounded : e.channels ≤ max_channels
  pub tidy : IsTidy e

abbrev pub AllFit : ℕ → ℕ → Map ℕ Entry → Type 0
AllFit max_channels next = Each (λ a e. Fits max_channels next a e)

pub record Inv (m : Manager) : Type 0 where
  pub table : IsMap m.sessions
  pub cells : IsMap m.heap
  pub linked : Linked m.heap m.sessions
  pub fit : AllFit m.opts.max_channels_per_session m.next m.heap
  pub limited : (user : String) → count_user user m.sessions m.heap ≤ m.opts.max_sessions_per_user

pub Inv-cell :
    (m : Manager) (a : ℕ) {e : Entry}
    → Inv m
    → lookup a m.heap ≡ some e
    → Fits m.opts.max_channels_per_session m.next a e
Inv-cell m a v at =
    Each-lookup (λ b x. Fits m.opts.max_channels_per_session m.next b x) a m.heap at v.fit

pub Inv-fresh : (m : Manager) → Inv m → lookup m.next m.heap ≡ none
Inv-fresh m v = elim (Option-cases (lookup m.next m.heap)) [
  | inl e ↦ e
  | inr (x, e) ↦ absurd (omega (arith, (Inv-cell m m.next v e).below))
]

-- A write to an entry that keeps its key and its user.
pub write-Inv :
    (m : Manager) (a : ℕ) (e e' : Entry) (failures : Map Key Failure) (log : List Effect)
    → lookup a m.heap ≡ some e
    → e'.key ≡ e.key
    → e'.user_id ≡ e.user_id
    → e'.channels ≤ m.opts.max_channels_per_session
    → IsTidy e'
    → Inv m
    → Inv (record m { failures = failures; heap = insert a e' m.heap; log = log })
write-Inv m a e e' failures log at k u n t v = record {
  table = v.table;
  cells = insert-IsMap a e' m.heap v.cells;
  linked = Linked-update m.heap a e e' m.sessions at k v.linked;
  fit =
      Each-insert (λ b x. Fits m.opts.max_channels_per_session m.next b x) a e' m.heap
        (record { below = (Inv-cell m a v at).below; bounded = n; tidy = t }) v.fit;
  limited =
      λ user. omega (arith, v.limited user, count_user-update user m.heap a e e' m.sessions at u);
}

-- What does not concern the table or the heap.
pub rest-Inv :
    (m : Manager) (failures : Map Key Failure) (log : List Effect)
    → Inv m
    → Inv (record m { failures = failures; log = log })
rest-Inv m failures log v = record {
  table = v.table;
  cells = v.cells;
  linked = v.linked;
  fit = v.fit;
  limited = v.limited;
}

pub drop-Inv :
    (m : Manager) (key : Key) (failures : Map Key Failure)
    → Inv m
    → Inv (record m { sessions = delete key m.sessions; failures = failures })
drop-Inv m key failures v = record {
  table = delete-IsMap key m.sessions v.table;
  cells = v.cells;
  linked = Each-delete (λ k a. HasKey k (lookup a m.heap)) key m.sessions v.linked;
  fit = v.fit;
  limited = λ user. omega (arith, v.limited user, count_user-delete user m.heap key m.sessions);
}

pub drop_if-Inv :
    (m : Manager) (p : Key → ℕ → Bool) (failures : Map Key Failure)
    → Inv m
    → Inv (record m { sessions = delete_if p m.sessions; failures = failures })
drop_if-Inv m p failures v = record {
  table = delete_if-IsMap p m.sessions v.table;
  cells = v.cells;
  linked = Each-delete_if (λ k a. HasKey k (lookup a m.heap)) p m.sessions v.linked;
  fit = v.fit;
  limited = λ user. omega (arith, v.limited user, count_user-delete_if user m.heap p m.sessions);
}

pub clear-Inv :
    (m : Manager) (failures : Map Key Failure)
    → Inv m
    → Inv (record m { sessions = []; failures = failures })
unfolding count_user
clear-Inv m failures v = record {
  table = tt;
  cells = v.cells;
  linked = tt;
  fit = v.fit;
  limited = λ user. omega arith;
}

fresh_entry : Key → String → ℕ → Option ℕ → Entry
fresh_entry key user now lease = record {
  key = key;
  user_id = user;
  sess = none;
  channels = 0;
  streams = 0;
  last_used = now;
  created = now;
  last_health_check = 0;
  reason = "";
  is_closed = false;
  lease = lease;
}

-- The count of every user after a registration: it grows for one user only.
register-limited :
    (m : Manager) (key : Key) (user : String) (e : Entry) (other : String)
    → e.user_id ≡ user
    → Inv m
    → lookup key m.sessions ≡ none
    → count_user user m.sessions m.heap < m.opts.max_sessions_per_user
    → count_user other (insert key m.next m.sessions) (insert m.next e m.heap)
      ≤ m.opts.max_sessions_per_user
register-limited m key user e other own v absent room = ground (
  arith,
  v.limited other,
  count_user-insert other (insert m.next e m.heap) key m.next m.sessions absent,
  count_user-alloc other m.heap m.next e m.sessions (Inv-fresh m v) v.linked,
  lookup-insert m.next m.next e m.heap,
  nat_eq.same_iff m.next m.next,
  string_eq.same_iff e.user_id other,
)

pub register-Inv :
    (m : Manager) (key : Key) (user : String) (now : ℕ) (lease : Option ℕ) (effects : List Effect)
    → Inv m
    → lookup key m.sessions ≡ none
    → count_user user m.sessions m.heap < m.opts.max_sessions_per_user
    → Inv (register m key user now lease effects)
unfolding register fresh_entry
register-Inv m key user now lease effects v absent room =
    let e = fresh_entry key user now lease in
    record {
      table = insert-IsMap key m.next m.sessions v.table;
      cells = insert-IsMap m.next e m.heap v.cells;
      linked =
          Each-insert (λ k a. HasKey k (lookup a (insert m.next e m.heap))) key m.next m.sessions
            (ground (arith, lookup-insert m.next m.next e m.heap, nat_eq.same_iff m.next m.next))
            (Linked-alloc m.heap m.next e m.sessions (Inv-fresh m v) v.linked);
      fit =
          Each-insert (λ b x. Fits m.opts.max_channels_per_session (suc m.next) b x) m.next e m.heap
            (record { below = omega arith; bounded = omega arith; tidy = λ h. cc })
            (Each-imp
              (λ b x f. record {
                below = omega (arith, f.below);
                bounded = f.bounded;
                tidy = f.tidy;
              })
              m.heap v.fit);
      limited = λ other. register-limited m key user e other refl v absent room;
    }
