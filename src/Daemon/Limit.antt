-- ===== src/Daemon/Limit.antt =====
-- That no more clients are served at once than the configuration allows.
use ius.Base.{
  ℕ, zero, suc, ◌+◌, ◌≤◌, ◌<◌, ◌^◌, ◌≡◌, refl, ap, ◌∙◌, Bool, true, false, List, [], ◌∷◌, ◌++◌,
  length, length-append, arith,
}
use ius.Metrics.{Metrics, fetch_sub_one}
use ius.Daemon.Admission.{
  Phase, spawned, active, leaving, Gate, open_gate, admit, enter, reject, exit, handle_client, Step,
  admits, enters, rejects, exits, releases, counts, Reachable, started, stepped,
}

-- 1 for a task that is in its handler.
abbrev pub in_handler : Phase → ℕ
in_handler active = 1
in_handler _ = 0

abbrev pub served : List Phase → ℕ
served [] = 0
served (p ∷ ps) = in_handler p + served ps

served-append : (ps qs : List Phase) → served (ps ++ qs) ≡ served ps + served qs
served-append [] qs = omega arith
served-append (p ∷ ps) qs = omega (arith, served-append ps qs)

served-le-length : (ps : List Phase) → served ps ≤ length ps
served-le-length [] = omega arith
served-le-length (active ∷ ps) = omega (arith, served-le-length ps)
served-le-length (spawned ∷ ps) = omega (arith, served-le-length ps)
served-le-length (leaving ∷ ps) = omega (arith, served-le-length ps)

pub record IsWithin (max_clients : ℕ) (g : Gate) : Type 0 where
  pub held : g.permits + length g.clients ≡ max_clients
  pub counted : g.metrics.clients_active ≡ served g.clients

served-le : (max : ℕ) (g : Gate) → IsWithin max g → served g.clients ≤ max
served-le max g w = omega (arith, w.held, served-le-length g.clients)

-- One task goes from phase `p` to phase `q`: the lengths, and the tasks in their handlers.
moved-length :
    (cs others more : List Phase) (p q : Phase)
    → cs ≡ others ++ p ∷ more
    → length (others ++ q ∷ more) ≡ length cs
moved-length cs others more p q e =
    rw (e, length-append others (q ∷ more), length-append others (p ∷ more)) refl

moved-served :
    (cs others more : List Phase) (p q : Phase)
    → cs ≡ others ++ p ∷ more
    → served (others ++ q ∷ more) + in_handler p ≡ served cs + in_handler q
moved-served cs others more p q e =
    rw (e, served-append others (q ∷ more), served-append others (p ∷ more)) (omega arith)

-- A handler that ends counts one down.
ends-IsWithin :
    (max : ℕ) (g : Gate) (others more : List Phase) (metrics : Metrics)
    → max < 2 ^ 64
    → g.clients ≡ others ++ active ∷ more
    → metrics.clients_active ≡ fetch_sub_one g.metrics.clients_active
    → IsWithin max g
    → IsWithin max (record g { metrics = metrics; clients = others ++ leaving ∷ more })
ends-IsWithin max g others more metrics small e down w = record {
  held = omega (arith, w.held, moved-length g.clients others more active leaving e);
  counted = omega (
    arith,
    down,
    w.counted,
    served-le max g w,
    moved-served g.clients others more active leaving e,
  );
}

Step-IsWithin :
    (max_clients : ℕ) (g h : Gate)
    → max_clients < 2 ^ 64
    → Step g h
    → IsWithin max_clients g
    → IsWithin max_clients h
unfolding admit enter reject exit
Step-IsWithin max g h small admits w =
    elim g.permits as (λ n. g.permits ≡ n → IsWithin max (admit g)) [
      | zero ↦ λ none_left.
          rw (none_left, admit)
            (record { held = ground (arith, w.held, none_left); counted = w.counted })
      | suc n ↦ λ left.
          rw (left, admit)
            (record { held = omega (arith, w.held, left); counted = omega (arith, w.counted) })
    ]
      refl
Step-IsWithin max g h small (enters others more e) w = record {
  held = omega (arith, w.held, moved-length g.clients others more spawned active e);
  counted = omega (
    arith,
    w.counted,
    w.held,
    served-le-length (others ++ active ∷ more),
    moved-length g.clients others more spawned active e,
    moved-served g.clients others more spawned active e,
  );
}
Step-IsWithin max g h small (rejects others more e) w =
    ends-IsWithin max g others more (reject g.metrics) small e refl w
Step-IsWithin max g h small (exits others more e) w =
    ends-IsWithin max g others more (exit g.metrics) small e refl w
Step-IsWithin max g h small (releases others more e) w = record {
  held = omega (
    arith,
    w.held,
    ap length e,
    length-append others (leaving ∷ more),
    length-append others more,
  );
  counted = omega (
    arith,
    w.counted,
    ap served e,
    served-append others (leaving ∷ more),
    served-append others more,
  );
}
Step-IsWithin max g h small (counts metrics same) w = record {
  held = w.held;
  counted = same ∙ w.counted;
}

-- In every state that the accept loop and its tasks reach, in any order of their steps, the tasks
-- and the free permits make up the limit, the tasks are no more than the limit, and the counter of
-- active clients is the number of the tasks that are in their handlers.
pub Reachable-IsWithin :
    (max_clients : ℕ) (metrics : Metrics) (g : Gate)
    → max_clients < 2 ^ 64
    → metrics.clients_active ≡ 0
    → Reachable (open_gate max_clients metrics) g
    → IsWithin max_clients g × (g.metrics.clients_active ≤ max_clients)
Reachable-IsWithin max metrics g small fresh started =
    (record { held = omega arith; counted = fresh }, omega (arith, fresh))
Reachable-IsWithin max metrics g small fresh (stepped r s) =
    let w = Step-IsWithin max _ g small s (Reachable-IsWithin max metrics _ small fresh r).0 in
    (w, omega (arith, w.counted, served-le max g w))

-- Behind a handler the number of active clients is what it was, whether the peer was let in or not,
-- and however its session went, if the session itself leaves the number alone.
pub handle_client-clients_active :
    (allowed : Bool) (inner : Metrics → Metrics) (m : Metrics)
    → m.clients_active < 2 ^ 64
    → (inner (enter m)).clients_active ≡ (enter m).clients_active
    → (handle_client allowed inner m).clients_active ≡ m.clients_active
unfolding handle_client enter reject exit
handle_client-clients_active true inner m small same = ground (arith, same)
handle_client-clients_active false inner m small same = omega arith
