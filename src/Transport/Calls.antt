-- ===== src/Transport/Calls.antt =====
-- Sequences of calls on one client's transport.
use intempt_python.Prelude.{String, true, List, [], ◌∷◌, ◌≡◌, refl, arith, if-cases}
use intempt_python.Config.Record.{ResolvedConfig}
use intempt_python.Config.Merge.{merge_config}
use intempt_python.Config.Merge.Merged.{merge_config-IsPatched}
use intempt_python.Python.Result.{Result, ok, raised, Ensures, Ensures-weaken}
use intempt_python.Python.Value.{Value, Options, truthy}
use intempt_python.Transport.State.{
  Connection, Request, logged, Net, Transport, note, drop_connection, moves, set_config, close,
}
use intempt_python.Transport.Post.{request_for, send_request, post_payload, post}
use intempt_python.Transport.Pool.{
  IsPooled, drop_connection_lem, set_config-IsPooled, close-IsPooled, post-IsPooled,
}
use intempt_python.Transport.Answers.{exchanges, exchanges-drop_connection}

-- What a client calls on its transport: `set_config` by way of `merge_config`, on the configuration
-- that the client and its transport share.
pub data Call : Type 0 where
  post_call : String → Value → Call
  set_config_call : Options → Call
  close_call : Call

-- `merge_config` may refuse the patch, and then nothing changes.
abbrev pub adopt : Result ResolvedConfig → Transport → Transport
adopt (ok config) t = set_config config t
adopt (raised e) t = t

-- A closed transport that has sent nothing but these requests.
pub record IsSilenced (sent_before : List (Connection × Request)) (after : Transport) : Type 0 where
  pub closed : after.closed ≡ true
  pub sent : exchanges after.trace ≡ sent_before

drop-IsSilenced :
    (t : Transport) → t.closed ≡ true → IsSilenced (exchanges t.trace) (drop_connection t)
drop-IsSilenced t done = record {
  closed = rw (drop_connection_lem t).2 done;
  sent = exchanges-drop_connection t;
}

closed_adopt :
    (t : Transport) (m : Result ResolvedConfig)
    → t.closed ≡ true
    → IsSilenced (exchanges t.trace) (adopt m t)
unfolding set_config
closed_adopt t (raised e) done = record { closed = done; sent = refl }
closed_adopt t (ok config) done =
    let t' : Transport = record t { config = config } in
    if-cases (IsSilenced (exchanges t.trace)) (moves t.config config) (drop_connection t') t'
      (λ h. drop-IsSilenced t' done) (λ h. record { closed = done; sent = refl })

module _ {W : Type 0} (net : Net W) (show : Value → String) where
  unfoldable pub perform : Call → Transport → W → Transport × W
  perform (post_call path body) t w = let (r, t', w') = post net path body t w in (t', w')
  perform (set_config_call patch) t w = (adopt (merge_config show t.config patch) t, w)
  perform close_call t w = (close t, w)

  unfoldable pub run : List Call → Transport × W → Transport × W
  run [] s = s
  run (call ∷ calls) (t, w) = run calls (perform call t w)

  adopt-IsPooled :
      (t : Transport) (m : Result ResolvedConfig)
      → Ensures (λ config. config.keep_alive ≡ t.config.keep_alive) m
      → IsPooled t
      → IsPooled (adopt m t)
  adopt-IsPooled t (ok config) same p = set_config-IsPooled config t same p
  adopt-IsPooled t (raised e) same p = p

  perform-IsPooled :
      (call : Call) (t : Transport) (w : W) → IsPooled t → IsPooled (perform call t w).0
  unfolding perform
  perform-IsPooled (post_call path body) t w p = post-IsPooled net path body t w p
  perform-IsPooled (set_config_call patch) t w p =
      adopt-IsPooled t (merge_config show t.config patch)
        (Ensures-weaken _ _ (merge_config show t.config patch) (λ after h. h.0.fixed.keep_alive)
          (merge_config-IsPatched show t.config patch))
        p
  perform-IsPooled close_call t w p = close-IsPooled t

  -- After any sequence of calls, the connection that the transport keeps, if any, goes to the host, the
  -- port and the scheme that are configured by then, `keep_alive` is on if one is kept, and a closed
  -- transport keeps none.
  pub run-IsPooled :
      (calls : List Call) (s : Transport × W) → IsPooled s.0 → IsPooled (run calls s).0
  unfolding run
  run-IsPooled [] s p = p
  run-IsPooled (call ∷ calls) (t, w) p =
      run-IsPooled calls (perform call t w) (perform-IsPooled call t w p)

  closed_send :
      (request : Request) (t : Transport) (w : W)
      → t.closed ≡ true
      → IsSilenced (exchanges t.trace) (send_request net request t w).1
  unfolding send_request
  closed_send request t w done =
      if-cases {A = Result Value × Transport × W} (λ r. IsSilenced (exchanges t.trace) r.1) t.closed
        _ _ (λ h. record { closed = done; sent = refl }) (λ h. ground arith)

  closed_post :
      (path : String) (dumped : Result String) (t : Transport) (w : W)
      → t.closed ≡ true
      → IsSilenced (exchanges t.trace) (post_payload net path dumped t w).1
  closed_post path (raised e) t w done = record { closed = done; sent = refl }
  closed_post path (ok payload) t w done =
      let request = request_for t path payload in
      if-cases (λ t'. IsSilenced (exchanges t.trace) (send_request net request t' w).1)
        (truthy t.config.debug) (note (logged path) t) t
        (λ h. closed_send request (note (logged path) t) w done) (λ h. closed_send request t w done)

  perform-IsSilenced :
      (call : Call) (t : Transport) (w : W)
      → t.closed ≡ true
      → IsSilenced (exchanges t.trace) (perform call t w).0
  unfolding perform post close
  perform-IsSilenced (post_call path body) t w done = closed_post path (net.dumps body) t w done
  perform-IsSilenced (set_config_call patch) t w done =
      closed_adopt t (merge_config show t.config patch) done
  perform-IsSilenced close_call t w done = drop-IsSilenced (record t { closed = true }) refl

  run-IsSilenced :
      (calls : List Call) (t : Transport) (w : W)
      → t.closed ≡ true
      → IsSilenced (exchanges t.trace) (run calls (t, w)).0
  unfolding run
  run-IsSilenced [] t w done = record { closed = done; sent = refl }
  run-IsSilenced (call ∷ calls) t w done =
      let first = perform-IsSilenced call t w done in
      let (t', w') = perform call t w in
      let rest = run-IsSilenced calls t' w' first.closed in
      record { closed = rest.closed; sent = rw rest.sent first.sent }

  close-IsSilenced : (t : Transport) → IsSilenced (exchanges t.trace) (close t)
  unfolding close
  close-IsSilenced t = drop-IsSilenced (record t { closed = true }) refl

  -- After `close`, no sequence of calls makes a request: the requests stay those made before it,
  -- and the transport stays closed.
  pub run-IsSilenced_after_close :
      (calls : List Call) (t : Transport) (w : W)
      → IsSilenced (exchanges t.trace) (run (close_call ∷ calls) (t, w)).0
  unfolding run perform
  run-IsSilenced_after_close calls t w =
      let first = close-IsSilenced t in
      let rest = run-IsSilenced calls (close t) w first.closed in
      record { closed = rest.closed; sent = rw rest.sent first.sent }
