-- ===== src/SensorServer/Durable.antt =====
-- What the file of sensors keeps of the registers over a restart of the server.
use mathlib.Core.List.{append-nil, append_assoc, perm_append_singleton, perm_append_comm, Perm}
use mathlib.Core.List.Perm
use mundosvirtuales_terremot.Base.{
  ℕ, ◌≡◌, refl, sym, ap, subst, ◌∙◌, List, [], ◌∷◌, ◌++◌, some, inl, inr,
}
use mundosvirtuales_terremot.Base.Bag.{bag, bag-perm}
use mundosvirtuales_terremot.Registry.{RemoteClientData, new_pair, load}
use mundosvirtuales_terremot.SensorServer.Cases.{update_list_sensor_cases, remove_client_cases}
use mundosvirtuales_terremot.Handshake.{FloatOps}
use mundosvirtuales_terremot.SensorServer.{SensorServer, start}
use mundosvirtuales_terremot.SensorServer.Registered.{
  infos, Saved, add_client-Saved, add_client_over-Saved,
}
use mundosvirtuales_terremot.SensorServer.Threads.{
  Run, ThreadStep, measure, leave, record_alarm, count, ThreadSteps, unmoved, moved,
}
use mundosvirtuales_terremot.SensorServer.History.{
  Reach, here, next, Step, connect, connect_over, other, opened, begin,
}

-- The registers have got some records, and the file the same ones and those of `alarms`, in some order.
abbrev Grown : List RemoteClientData → SensorServer → SensorServer → Type 0
Grown alarms s t =
    (rs : List RemoteClientData) × (fs : List RemoteClientData) × (infos t.registers
      ≡ infos s.registers ++ rs)
    × (t.file ≡ s.file ++ fs)
    × Perm fs (rs ++ alarms)

Grown-refl : (s t : SensorServer) → s.registers ≡ t.registers → s.file ≡ t.file → Grown [] s t
Grown-refl s t e f = (
  [],
  [],
  sym (ap infos e) ∙ sym (append-nil (infos s.registers)),
  sym f ∙ sym (append-nil s.file),
  Perm.refl [],
)

Saved-Grown : (s t : SensorServer) → Saved s t → Grown [] s t
Saved-Grown s t (inl (e, f)) =
    ([], [], e ∙ sym (append-nil _), f ∙ sym (append-nil _), Perm.refl [])
Saved-Grown s t (inr (r, e, f)) = (r ∷ [], r ∷ [], e, f, Perm.refl (r ∷ []))

-- Two lists of records, each in two parts.
parts :
    (fs gs rs qs xs ys : List RemoteClientData)
    → Perm fs (rs ++ xs)
    → Perm gs (qs ++ ys)
    → Perm (fs ++ gs) ((rs ++ qs) ++ (xs ++ ys))
parts fs gs rs qs xs ys p q = Perm.trans (Perm.append p q) (
    subst (λ l. Perm l ((rs ++ qs) ++ (xs ++ ys))) (sym (append_assoc rs xs (qs ++ ys)))
      (subst (Perm (rs ++ (xs ++ (qs ++ ys)))) (sym (append_assoc rs qs (xs ++ ys))) (
        Perm.append_left rs (
          subst (λ l. Perm l (qs ++ (xs ++ ys))) (append_assoc xs qs ys)
            (subst (Perm ((xs ++ qs) ++ ys)) (append_assoc qs xs ys)
              (Perm.append_right ys (perm_append_comm xs qs)))))))

Grown-trans :
    (xs ys : List RemoteClientData) (s t u : SensorServer)
    → Grown xs s t
    → Grown ys t u
    → Grown (xs ++ ys) s u
Grown-trans xs ys s t u (rs, fs, e, f, p) (qs, gs, g, h, q) = (
  rs ++ qs,
  fs ++ gs,
  g ∙ ap (λ l. l ++ qs) e ∙ append_assoc (infos s.registers) rs qs,
  h ∙ ap (λ l. l ++ gs) f ∙ append_assoc s.file fs gs,
  parts fs gs rs qs xs ys p q,
)

-- The records that the server of the alarms has written to the file of the sensors.
abbrev pub thread_record : {r u : Run} → ThreadStep r u → List RemoteClientData
thread_record (measure ref payload time s k e) = []
thread_record (leave ref s k e) = []
thread_record (record_alarm x) = x ∷ []
thread_record (count index) = []

abbrev pub thread_records : {r u : Run} → ThreadSteps r u → List RemoteClientData
thread_records unmoved = []
thread_records (moved p st) = thread_records p ++ thread_record st

abbrev pub alarm_record : {f : FloatOps} {r u : Run} → Step f r u → List RemoteClientData
alarm_record (connect x) = []
alarm_record (connect_over x t p) = thread_records p
alarm_record (other st) = thread_record st

abbrev pub alarm_records : {f : FloatOps} {r u : Run} → Reach f r u → List RemoteClientData
alarm_records here = []
alarm_records (next p st) = alarm_records p ++ alarm_record st

ThreadStep-Grown : (r u : Run) (st : ThreadStep r u) → Grown (thread_record st) r.server u.server
ThreadStep-Grown r u (measure ref payload time s k e) =
    let (list, _, result) = update_list_sensor_cases r.server s ref payload time e in
    Grown-refl r.server s (ap (λ t. t.registers) result) (ap (λ t. t.file) result)
ThreadStep-Grown r u (leave ref s k e) =
    let (pool, list, result) = remove_client_cases r.server s ref e in
    Grown-refl r.server s (ap (λ t. t.registers) result) (ap (λ t. t.file) result)
ThreadStep-Grown r u (record_alarm x) = ([], x ∷ [], sym (append-nil _), refl, Perm.refl (x ∷ []))
ThreadStep-Grown r u (count index) = Grown-refl r.server u.server refl refl

ThreadSteps-Grown : (r u : Run) (p : ThreadSteps r u) → Grown (thread_records p) r.server u.server
ThreadSteps-Grown r u unmoved = Grown-refl r.server r.server refl refl
ThreadSteps-Grown r u (moved {t} p st) =
    Grown-trans (thread_records p) (thread_record st) r.server t.server u.server
      (ThreadSteps-Grown r t p) (ThreadStep-Grown t u st)

Step-Grown :
    (f : FloatOps) (r u : Run) (st : Step f r u) → Grown (alarm_record st) r.server u.server
Step-Grown f r u (connect x) = Saved-Grown r.server u.server (add_client-Saved f r.server x)
Step-Grown f r u (connect_over x t p) =
    let (rs, fs, e, g, same) = ThreadSteps-Grown (opened r) t p in
    subst (λ l. Grown l r.server u.server) (append-nil (thread_records p))
      (Grown-trans (thread_records p) [] r.server t.server u.server (rs, fs, e, g, same)
        (Saved-Grown t.server u.server (add_client_over-Saved f r.server t.server x)))
Step-Grown f r u (other st) = ThreadStep-Grown r u st

Reach-Grown :
    (f : FloatOps) (r u : Run) (p : Reach f r u) → Grown (alarm_records p) r.server u.server
Reach-Grown f r u here = Grown-refl r.server r.server refl refl
Reach-Grown f r u (next {t} p st) =
    Grown-trans (alarm_records p) (alarm_record st) r.server t.server u.server (Reach-Grown f r t p)
      (Step-Grown f t u st)

infos-load :
    (records : List RemoteClientData) → infos (load (some records)) ≡ records ++ new_pair.info ∷ []
unfolding load
infos-load [] = refl
infos-load (r ∷ rs) = ap (◌∷◌ r) (infos-load rs)

-- A restart. Whatever has happened since the server started on a file, a server that starts on the file as it
-- is then has, in some order, the registers of the running one and one more for each record that the server of
-- the alarms has written to that file since: none is lost, and no other is made.
pub restart_same_bag :
    (f : FloatOps) (records : List RemoteClientData) (index again : ℕ) (r : Run)
    → (p : Reach f (begin (some records) index) r)
    → bag (infos (start (some r.server.file) again).registers)
      ≡ bag (infos r.server.registers ++ alarm_records p)
unfolding start
restart_same_bag f records index again r p =
    let (rs, fs, e, g, same) = Reach-Grown f (begin (some records) index) r p in
    let zero = new_pair.info in
    let alarms = alarm_records p in
    ap bag
      (infos-load r.server.file ∙ ap (λ l. l ++ zero ∷ []) g ∙ append_assoc records fs (zero ∷ []))
    ∙ bag-perm (
        Perm.append_left records (Perm.trans (perm_append_singleton zero fs) (Perm.cons zero same)))
    ∙ ap bag (
        sym (
          ap (λ l. l ++ alarms)
            (e ∙ ap (λ l. l ++ rs) (infos-load records) ∙ append_assoc records (zero ∷ []) rs)
          ∙ append_assoc records (zero ∷ rs) alarms))

-- Histories that go on over restarts, in which the server starts on the file as it is then.
pub data Lasts (f : FloatOps) (r : Run) : Run → Type 0 where
  begins : Lasts f r r
  goes : {t u : Run} → Lasts f r t → Step f t u → Lasts f r u
  restarts : {t : Run} → Lasts f r t → (index : ℕ) → Lasts f r (begin (some t.server.file) index)

-- The record is in the list.
abbrev pub Holds : RemoteClientData → List RemoteClientData → Type 0
Holds r l =
    (before : List RemoteClientData) × (after : List RemoteClientData) × (l ≡ before ++ r ∷ after)

Holds-append :
    (r : RemoteClientData) (l m more : List RemoteClientData)
    → m ≡ l ++ more
    → Holds r l
    → Holds r m
Holds-append r l m more e (before, after, h) =
    (before, after ++ more, e ∙ ap (λ l. l ++ more) h ∙ append_assoc before (r ∷ after) more)

-- The record is in a register and in the file.
abbrev pub Remembers : RemoteClientData → SensorServer → Type 0
Remembers r s = Holds r (infos s.registers) × Holds r s.file

Grown-Remembers :
    (r : RemoteClientData) (alarms : List RemoteClientData) (s t : SensorServer)
    → Grown alarms s t
    → Remembers r s
    → Remembers r t
Grown-Remembers r alarms s t (more, written, e, g, _) (h, k) =
    (Holds-append r _ _ more e h, Holds-append r _ _ written g k)

-- A record that is in a register and in the file stays in both, over restarts too.
pub Lasts-Remembers :
    (f : FloatOps) (r : RemoteClientData) (q u : Run)
    → Lasts f q u
    → Remembers r q.server
    → Remembers r u.server
unfolding start
Lasts-Remembers f r q u begins h = h
Lasts-Remembers f r q u (goes {t} p st) h =
    Grown-Remembers r (alarm_record st) t.server u.server (Step-Grown f t u st)
      (Lasts-Remembers f r q t p h)
Lasts-Remembers f r q u (restarts {t} p index) h =
    let (_, k) = Lasts-Remembers f r q t p h in
    (Holds-append r _ _ (new_pair.info ∷ []) (infos-load t.server.file) k, k)
