-- ===== src/System/Contract.antt =====
-- What holds in every run, by a contract between the handlers, what waits, and the state.
use nxos_dhcp6_exporter.Prelude.{
  ℕ, zero, suc, ◌≡◌, refl, Option, none, some, List, [], ◌∷◌, ◌++◌, All,
}
use nxos_dhcp6_exporter.Outcome.{Outcome, ok, raised, fault, Fault}
use nxos_dhcp6_exporter.Json.{JsonApi}
use nxos_dhcp6_exporter.Kea.{Kea, LeaseMgr}
use nxos_dhcp6_exporter.Run.{
  Log, Reply, Request, Run, done, throws, faults, logs, posts, reports_failure, skips,
}
use nxos_dhcp6_exporter.Service.{Config}
use nxos_dhcp6_exporter.Callout.{lease_callout}
use nxos_dhcp6_exporter.Heartbeat.{handler_failed_callback, heartbeat_request, on_reply}
use nxos_dhcp6_exporter.Http.{HttpResult, Delivered, on_result}
use nxos_dhcp6_exporter.System.{
  Pending, check, call, System, take_out, write, write_some, break_down, perform, Event, Stimulus,
  ticks, happens, answers, handler, call_back, after_check, deliver_to, answer_one, step, run,
}

module _ {ℓ κ} {A : Type ℓ} (P : A → Type κ) where
  pub All-last : (l : List A) (x : A) → All P l → P x → All P (l ++ x ∷ [])
  All-last [] x h p = (p, tt)
  All-last (y ∷ l) x (q, h) p = (q, All-last l x h p)

  -- What holds of all elements holds of the one that is taken out, and of the rest.
  abbrev AllTaken : Option (A × List A) → Type κ
  AllTaken none = Unit
  AllTaken (some (x, rest)) = P x × All P rest

  take_out-AllTaken : (n : ℕ) (l : List A) → All P l → AllTaken (take_out n l)
  take_out-AllTaken n [] h = tt
  take_out-AllTaken zero (x ∷ l) h = h
  take_out-AllTaken (suc n) (x ∷ l) (p, h) =
      elim (take_out n l)
          as (λ o. AllTaken o → AllTaken (elim o [ none ↦ none | some (y, k) ↦ some (y, x ∷ k) ])) [
            | none ↦ (λ t. tt)
            | some (y, k) ↦ (λ (q, t). (q, (p, t)))
          ]
        (take_out-AllTaken n l h)

module _ (api : JsonApi) (kea : Kea) (db : LeaseMgr kea.HwAddr) (cfg : Config) where
  open api use {Json}
  open kea use {HwAddr}

  -- What holds of a handler, of what waits, of the state apart from that, and of a stimulus.
  pub record Contract : Type 1 where
    pub Handler : Run Json → Type 0
    pub Waits : Pending Json → Type 0
    pub Holds : System Json → Type 0
    pub Allowed : Stimulus HwAddr → Type 0
    -- What a handler does next, and goes on with.
    pub of_logs : (m : Log) (r : Run Json) → Handler (logs m r) → Handler r
    pub of_skips : (r : Run Json) → Handler (skips r) → Handler r
    pub of_posts :
        (q : Request Json) (f : Reply Json → Run Json) (r : Run Json)
        → Handler (posts q f r)
        → Waits (call q f) × Handler r
    pub of_reports :
        (r : Run Json) (s : System Json)
        → Handler (reports_failure r)
        → Holds s
        → Holds (record s { heartbeat = handler_failed_callback s.heartbeat }) × Handler r
    pub of_faults :
        (u : Fault) (s : System Json) → Handler (faults u) → Holds s → Holds (break_down u s)
    -- The state is not what is written and what waits.
    pub any_message : (m : Log) (s : System Json) → Holds s → Holds (write m s)
    pub any_waiting :
        (l : List (Pending Json)) (s : System Json) → Holds s → Holds (record s { waiting = l })
    -- The three stimuli.
    pub ticks_so :
        (s : System Json)
        → Allowed ticks
        → Holds s
        → Waits (check (heartbeat_request api s.heartbeat))
    pub happens_so :
        (e : Event HwAddr)
        → Allowed (happens e)
        → Handler (lease_callout (handler api kea db cfg e))
    pub answers_call :
        (n : ℕ) (result : HttpResult) (d : Delivered api) (q : Request Json)
        (f : Reply Json → Run Json)
        → Allowed (answers n result)
        → on_result api result ≡ ok d
        → Waits (call q f)
        → Handler (f d.reply)
    pub answers_check :
        (n : ℕ) (result : HttpResult) (d : Delivered api) (q : Request Json) (s : System Json)
        → Allowed (answers n result)
        → on_result api result ≡ ok d
        → Waits (check q)
        → Holds s
        → All Waits s.waiting
        → let t = after_check api kea db cfg (on_reply api s.heartbeat d.reply) s in
          Holds t × All Waits t.waiting
    pub answers_badly :
        (n : ℕ) (result : HttpResult) (u : Fault) (s : System Json)
        → Allowed (answers n result)
        → on_result api result ≡ fault u
        → Holds s
        → Holds (break_down u s)

  module _ (c : Contract) where
    open c use {
      Handler, Waits, Holds, Allowed, of_logs, of_skips, of_posts, of_reports, of_faults,
      any_message, any_waiting, ticks_so, happens_so, answers_call, answers_check, answers_badly,
    }

    -- The state holds, and so does all that waits.
    abbrev pub IsMet : System Json → Type 0
    IsMet s = Holds s × All Waits s.waiting

    pub perform-IsMet : (r : Run Json) (s : System Json) → Handler r → IsMet s → IsMet (perform r s)
    unfolding perform
    perform-IsMet done s hr i = i
    perform-IsMet (throws e) s hr i = i
    perform-IsMet (faults u) s hr (h, w) = (of_faults u s hr h, w)
    perform-IsMet (logs m r) s hr (h, w) =
        perform-IsMet r (write m s) (of_logs m r hr) (any_message m s h, w)
    perform-IsMet (posts q f r) s hr (h, w) =
        let (wait, rest) = of_posts q f r hr in
        perform-IsMet r (record s { waiting = s.waiting ++ call q f ∷ [] }) rest
          (any_waiting (s.waiting ++ call q f ∷ []) s h, All-last Waits s.waiting (call q f) w wait)
    perform-IsMet (reports_failure r) s hr (h, w) =
        let (kept, rest) = of_reports r s hr h in
        perform-IsMet r (record s { heartbeat = handler_failed_callback s.heartbeat }) rest
          (kept, w)
    perform-IsMet (skips r) s hr i = perform-IsMet r s (of_skips r hr) i

    write_some-IsMet : (o : Option Log) (s : System Json) → IsMet s → IsMet (write_some o s)
    write_some-IsMet none s i = i
    write_some-IsMet (some m) s (h, w) = (any_message m s h, w)

    deliver_to-IsMet :
        (n : ℕ) (result : HttpResult) (p : Pending Json) (o : Outcome (Delivered api))
        (s : System Json)
        → Allowed (answers n result)
        → on_result api result ≡ o
        → Waits p
        → IsMet s
        → IsMet (deliver_to api kea db cfg p o s)
    unfolding call_back
    deliver_to-IsMet n result (call q f) (ok d) s a e wait i =
        perform-IsMet (f d.reply) (write_some d.log s) (answers_call n result d q f a e wait)
          (write_some-IsMet d.log s i)
    deliver_to-IsMet n result (check q) (ok d) s a e wait i =
        let (h, w) = write_some-IsMet d.log s i in
        answers_check n result d q (write_some d.log s) a e wait h w
    deliver_to-IsMet n result p (raised x) s a e wait i = i
    deliver_to-IsMet n result p (fault u) s a e wait (h, w) = (answers_badly n result u s a e h, w)

    answer_one-IsMet :
        (n : ℕ) (result : HttpResult) (o : Option (Pending Json × List (Pending Json)))
        (s : System Json)
        → Allowed (answers n result)
        → AllTaken Waits o
        → IsMet s
        → IsMet (answer_one api kea db cfg o result s)
    answer_one-IsMet n result none s a t i = i
    answer_one-IsMet n result (some (p, rest)) s a (wait, w) (h, all) =
        deliver_to-IsMet n result p (on_result api result) (record s { waiting = rest }) a refl wait
          (any_waiting rest s h, w)

    step-IsMet :
        (x : Stimulus HwAddr) (s : System Json)
        → Allowed x
        → IsMet s
        → IsMet (step api kea db cfg x s)
    unfolding step
    step-IsMet ticks s a (h, w) =
        let waiting = s.waiting ++ check (heartbeat_request api s.heartbeat) ∷ [] in
        (any_waiting waiting s h, All-last Waits s.waiting _ w (ticks_so s a h))
    step-IsMet (happens e) s a i =
        perform-IsMet (lease_callout (handler api kea db cfg e)) s (happens_so e a) i
    step-IsMet (answers n result) s a (h, w) =
        answer_one-IsMet n result (take_out n s.waiting) s a (take_out-AllTaken Waits n s.waiting w)
          (h, w)

    -- What is met at first is met after every run of allowed stimuli.
    pub run-IsMet :
        (xs : List (Stimulus HwAddr)) (s : System Json)
        → All Allowed xs
        → IsMet s
        → IsMet (run api kea db cfg xs s)
    unfolding run
    run-IsMet [] s a i = i
    run-IsMet (x ∷ xs) s (a, rest) i =
        run-IsMet xs (step api kea db cfg x s) rest (step-IsMet x s a i)
