-- ===== src/Connection/Read.antt =====
-- Reading in: `connection_read_into_in_buffer` of src/connection/connection.cpp.
use event_driven_tcp_chatroo.Base.{
  ◌≡◌, refl, sym, ap, ◌∙◌, Bool, true, false, ◌≢◌, List, [], ◌∷◌, flatten, ◌++◌, append_assoc,
  append-nil, Bytes, if◌then◌else◌, ◌⊎◌, inl, inr, Bool-cases,
}
use event_driven_tcp_chatroo.Os.{
  Os, RecvRun, chunk, end_of_stream, recv_error, Errno, eintr, eagain, ewouldblock, einprogress,
  other_error,
}
use event_driven_tcp_chatroo.Connection.{
  Connection, ConnectionState, closed, connection_error, try_later, read_loop,
  connection_read_into_in_buffer,
}

-- All bytes of a run, in the order in which they came.
abbrev pub received : RecvRun → Bytes
received (chunk bytes rest) = bytes ++ received rest
received end_of_stream = []
received (recv_error e) = []

-- The state after a run that found the connection in state `s`: the end of the stream closes it,
-- an error that is no reason to try later breaks it.
abbrev pub state_after : RecvRun → ConnectionState → ConnectionState
state_after (chunk bytes rest) s = state_after rest s
state_after end_of_stream s = closed
state_after (recv_error e) s = if try_later e then s else connection_error

-- Whether a run ends without such an error.
abbrev pub ends_well : RecvRun → Bool
ends_well (chunk bytes rest) = ends_well rest
ends_well end_of_stream = true
ends_well (recv_error e) = try_later e

-- The loop over the calls of `recv`, in one step.
pub read_loop_lem :
    (run : RecvRun) (c : Connection)
    → read_loop run c ≡ (
      ends_well run,
      record c { in_buffer = c.in_buffer ++ received run; state = state_after run c.state },
    )
unfolding read_loop
read_loop_lem (chunk bytes rest) c =
    read_loop_lem rest (record c { in_buffer = c.in_buffer ++ bytes })
    ∙ ap (λ b. (ends_well rest, record c { in_buffer = b; state = state_after rest c.state }))
        (append_assoc c.in_buffer bytes (received rest))
read_loop_lem end_of_stream c =
    ap (λ b. (true, record c { in_buffer = b; state = closed })) (sym (append-nil c.in_buffer))
read_loop_lem (recv_error e) c = rw append-nil (by_error (try_later e))
  where
    by_error :
        (later : Bool)
        → ◌≡◌ {A = Bool × Connection}
            (if later then (true, c) else (false, record c { state = connection_error }))
            (later, record c { state = if later then c.state else connection_error })
    by_error true = refl
    by_error false = refl

-- The end of a read.
pub state_after-cases :
    (run : RecvRun) (s : ConnectionState)
    → (state_after run s ≡ s)
      ⊎ (state_after run s ≡ closed)
      ⊎ (state_after run s ≡ connection_error)
state_after-cases (chunk bytes rest) s = state_after-cases rest s
state_after-cases end_of_stream s = inr (inl refl)
state_after-cases (recv_error e) s = elim (Bool-cases (try_later e)) [
  | inl later ↦ inl (rw later)
  | inr fatal ↦ inr (inr (rw fatal))
]

-- A run of `recv` that brings some chunks and then ends.
abbrev pub chunked : List Bytes → RecvRun → RecvRun
chunked [] last = last
chunked (bytes ∷ chunks) last = chunk bytes (chunked chunks last)

-- Any error but an interrupt and the two numbers of an empty or full socket.
abbrev pub IsFatal : Errno → Type 0
IsFatal e = (e ≢ eintr) × (e ≢ eagain) × (e ≢ ewouldblock)

-- What the end of a run makes of a connection: whether the read succeeds, and the state.
pub data EndsAs : RecvRun → ConnectionState → Bool → ConnectionState → Type 0 where
  stream_ends : {s : ConnectionState} → EndsAs end_of_stream s true closed
  interrupted : {s : ConnectionState} → EndsAs (recv_error eintr) s true s
  no_more : {s : ConnectionState} → EndsAs (recv_error eagain) s true s
  would_block : {s : ConnectionState} → EndsAs (recv_error ewouldblock) s true s
  breaks :
      {s : ConnectionState} (e : Errno) → IsFatal e → EndsAs (recv_error e) s false connection_error

pub fatal-try_later : (e : Errno) → IsFatal e → try_later e ≡ false
fatal-try_later eintr h = absurd (h.0 refl)
fatal-try_later eagain h = absurd (h.1 refl)
fatal-try_later ewouldblock h = absurd (h.2 refl)
fatal-try_later einprogress h = refl
fatal-try_later (other_error n) h = refl

chunked-received :
    (chunks : List Bytes) (last : RecvRun)
    → received last ≡ []
    → received (chunked chunks last) ≡ flatten chunks
unfolding flatten
chunked-received [] last h = h
chunked-received (bytes ∷ chunks) last h = ap (λ b. bytes ++ b) (chunked-received chunks last h)

chunked-end :
    (chunks : List Bytes) (last : RecvRun) (s : ConnectionState)
    → (ends_well (chunked chunks last) ≡ ends_well last)
      × (state_after (chunked chunks last) s ≡ state_after last s)
chunked-end [] last s = (refl, refl)
chunked-end (bytes ∷ chunks) last s = chunked-end chunks last s

end_lem :
    (last : RecvRun) (s : ConnectionState) (ok : Bool) (s1 : ConnectionState)
    → EndsAs last s ok s1
    → (received last ≡ []) × (ends_well last ≡ ok) × (state_after last s ≡ s1)
end_lem last s ok s1 stream_ends = (refl, refl, refl)
end_lem last s ok s1 interrupted = (refl, refl, refl)
end_lem last s ok s1 no_more = (refl, refl, refl)
end_lem last s ok s1 would_block = (refl, refl, refl)
end_lem last s ok s1 (breaks e fatal) = let h = fatal-try_later e fatal in (refl, h, rw h refl)

-- If `recv` brings a list of chunks and then the end of the stream or an error, then a read appends
-- all chunks to the input buffer, in order, and nothing else, and changes the state and succeeds as
-- the end says: at the end of the stream it succeeds and closes the connection; at an interrupt,
-- EAGAIN or EWOULDBLOCK it succeeds and keeps the state; at any other error it fails and sets the
-- error state. Nothing else of the connection changes.
pub connection_read-EndsAs :
    {K : Type 0} (os : Os K) (c : Connection) (k : K) (chunks : List Bytes) (last : RecvRun)
    (ok : Bool) (state : ConnectionState)
    → (os.recv c.fd k).0 ≡ chunked chunks last
    → EndsAs last c.state ok state
    → connection_read_into_in_buffer os c k ≡ (
      ok,
      record c { in_buffer = c.in_buffer ++ flatten chunks; state = state },
      (os.recv c.fd k).1,
    )
unfolding connection_read_into_in_buffer
connection_read-EndsAs os c k chunks last ok state e ends =
    let (nothing, well, after) = end_lem last c.state ok state ends in
    let (well1, after1) = chunked-end chunks last c.state in
    rw
      (
        connection_read_into_in_buffer,
        e,
        read_loop_lem (chunked chunks last) c,
        chunked-received chunks last nothing,
        well1,
        after1,
        well,
        after,
      )
      refl
