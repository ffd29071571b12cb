-- ===== src/Examples/Codecs.antt =====
-- Codecs at which the theorems apply: the bytes are the messages themselves.
use nettverksprogrammering_p.Base.{◌≡◌, refl, ◌∙◌, sym, ap, none, some, ◌⊎◌, inl, inr}
use nettverksprogrammering_p.CrdtSync.{Codec, SyncMessage, hello, state}
use nettverksprogrammering_p.Std.HashMap
use nettverksprogrammering_p.Std.HashMap.{nat_key}
use nettverksprogrammering_p.CrdtCore.Counter.{GCounter}
use nettverksprogrammering_p.CrdtSync.Exchange.{arrival, IsFaithful}
use nettverksprogrammering_p.TodoApp.Protocol.{ServerMessage, ClientMessage}
use nettverksprogrammering_p.TodoApp.Server.{Json}
use nettverksprogrammering_p.TodoApp.State.{TodoState}
use nettverksprogrammering_p.TodoApp.System.{wire}

-- for the browser; the server's messages are no requests
abbrev pub json : Json
json = record {
  Message = ServerMessage ⊎ ClientMessage;
  to_string = λ m. some (inl m);
  from_str = λ m. elim m [ inl _ ↦ none | inr msg ↦ some msg ];
}

-- for the peers; reading fills in the fields that are skipped
abbrev pub todo_codec : Codec TodoState
todo_codec = record {
  Bytes = SyncMessage TodoState;
  serialize = some;
  deserialize = λ msg. some (arrival wire msg);
}

pub todo_codec-IsFaithful : IsFaithful todo_codec wire
todo_codec-IsFaithful = record {
  reads = λ msg b e.
      let whole : some b ≡ some msg = sym e in
      ap (λ m. elim m [ none ↦ none | some x ↦ some (arrival wire x) ]) whole;
}

-- for counters; nothing is skipped
abbrev pub counter_codec : Codec GCounter
counter_codec = record { Bytes = SyncMessage GCounter; serialize = some; deserialize = some }

abbrev pub counted_5 : GCounter
counted_5 = record { counts = HashMap.insert HashMap.new 1 5 }

arrival_whole : (msg : SyncMessage GCounter) → arrival (λ s. s) msg ≡ msg
arrival_whole (hello peer_id) = refl
arrival_whole (state s) = refl

pub counter_codec-IsFaithful : IsFaithful counter_codec (λ s. s)
counter_codec-IsFaithful = record { reads = λ msg b e. sym e ∙ ap some (sym (arrival_whole msg)) }
