-- ===== src/Wire/Worker.antt =====
-- `TcpWorker::run` of tcp_worker.cpp, and `JanoshThread`: what a worker answers to the texts that a
-- client sends.
use janosh.Common.{
  Bool, true, false, List, [], ◌∷◌, ◌++◌, Option, none, some, Bytes, codes, bytes_eq, if◌then◌else◌,
}
use janosh.Result.{Result, ok, err}
use janosh.Wire.Request.{Request, command_line}

-- What a worker calls: transactions of the database, the flag of its tracker, the archive of Boost that
-- a request is read from, and the `DatabaseThread` of a request, with its result and its output.
pub record Service (S : Type 0) : Type 0 where
  pub begin_transaction : S → S
  pub end_transaction : Bool → S → S
  pub set_do_publish : Bool → S → S
  pub read_request : Bytes → Result Request
  pub run_request : Request → S → Bool × Bytes × S

abbrev pub marker : Bytes
marker = codes "__JANOSH_EOF"

-- The end of a reply, and the worker's mark of success in it.
unfoldable pub ending : Bool → Bytes
ending result = marker ++ 10 ∷ (if result then codes "0" else codes "1") ++ 10 ∷ []

-- The command "trigger" is a "set" that publishes.
unfoldable pub as_set : Request → Request
as_set r =
    if bytes_eq r.command (codes "trigger")
    then record r { command = codes "set"; triggers = true }
    else r

module _ {S : Type 0} (service : Service S) where
  -- A request that was read; the text of its command is made for the log, which may throw.
  unfoldable pub answer_request : Request → S → Bytes × S
  unfolding ending as_set
  answer_request r s = elim (command_line r) [
    | err e ↦ (ending false, s)
    | ok line ↦ elim r.command [
      | [] ↦ (ending true, s)
      | c ∷ rest ↦
          (let q = as_set r in
            let done = service.run_request q (service.set_do_publish q.triggers s) in
            (done.1 ++ ending done.0, done.2))
    ]
  ]

  -- One round of the loop; without an answer it ends.
  unfoldable pub turn : Bytes → S → Option Bytes × S
  unfolding answer_request
  turn [] s = (none, s)
  turn (c ∷ text) s =
      if bytes_eq (c ∷ text) (codes "begin")
      then (some (codes "bok"), service.begin_transaction s)
      else if bytes_eq (c ∷ text) (codes "commit")
      then (some (codes "cok"), service.end_transaction true s)
      else if bytes_eq (c ∷ text) (codes "abort")
      then (some (codes "aok"), service.end_transaction false s)
      else (elim (service.read_request (c ∷ text)) [
        | err e ↦ (some (ending false), s)
        | ok r ↦ (let a = answer_request r s in (some a.0, a.1))
      ])

  -- The loop, over the texts that arrive before the client is gone.
  unfoldable pub run : List Bytes → S → List Bytes × S
  unfolding turn
  run [] s = ([], s)
  run (text ∷ texts) s =
      let answered = turn text s in
      let rest = run texts answered.1 in
      elim answered.0 [ none ↦ ([], answered.1) | some reply ↦ (reply ∷ rest.0, rest.1) ]
