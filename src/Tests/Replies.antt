-- ===== src/Tests/Replies.antt =====
-- Replies of a worker, and messages of a subscription.
use janosh.Common.{
  ℕ, suc, ◌≡◌, refl, true, false, [], ◌∷◌, ◌++◌, some, Bytes, codes, arith, bytes_eq, getlines,
}
use janosh.Result.{ok}
use janosh.Print.Visitors.{bash}
use janosh.Tracker.{message, c_str}
use janosh.Wire.Request.{Request, command_line}
use janosh.Wire.Worker.{Service, turn}
use janosh.Wire.Client.{client_reply, ends_with}
use janosh.Wire.RoundTrip.{client_reply-turn}
use janosh.Wire.Subscription.{receive, receive-message}

-- A service that counts requests and prints one line for each.
abbrev size_request : Request
size_request = record {
  format = bash;
  command = codes "size";
  args = [];
  triggers = false;
  verbose = false;
  info = [];
}

abbrev counting : Service ℕ
counting = record {
  begin_transaction = λ n. n;
  end_transaction = λ commit n. n;
  set_do_publish = λ publishes n. n;
  read_request = λ text. ok size_request;
  run_request = λ r n. (true, codes "3" ++ 10 ∷ [], suc n);
}

client_reply-turn_example :
    (reply : Bytes) × (turn counting (codes "x") 4 ≡ (some reply, 5))
    × (client_reply reply ≡ (codes "3" ++ 10 ∷ [], 0))
unfolding bytes_eq command_line ends_with getlines
client_reply-turn_example =
    client_reply-turn counting 4 5 (codes "x") (codes "janosh -b size ") (codes "3" ++ 10 ∷ [])
      size_request true refl (λ e. cc) refl (λ e. cc) refl refl (refl, tt)

receive-message_example :
    receive (message (codes "/a") (codes "W") (codes "x y"))
    ≡ ok (codes "/a", codes "W", codes "x y")
unfolding c_str
receive-message_example =
    receive-message (codes "/a") (codes "W") (codes "x y") (λ e. cc) (omega arith) (omega arith)
      (omega arith) (omega arith)
