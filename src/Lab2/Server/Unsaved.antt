-- ===== src/Lab2/Server/Unsaved.antt =====
-- A session of the server never gets a file name, and the file manager is called with the empty one.
use nssa_ds.Base.{
  ℕ, ◌≡◌, refl, ◌∙◌, Bool, false, inl, inr, Bool-cases, List, [], ◌∷◌, String, ltb, ◌-◌, ◌==◌,
}
use nssa_ds.Base.Map.{pair_key, lookup, insert}
use nssa_ds.Base.Entries.{AllValues, insert-AllValues, erase-AllValues}
use nssa_ds.Base.Bytes.{Bytes}
use nssa_ds.Base.Text.{Text}
use nssa_ds.Lab2.Packet.{Packet}
use nssa_ds.Lab2.PacketType
use nssa_ds.Lab2.Server.{
  UdpServer, TransferSession, new_session, found_or_new, handle_command, handle_data_packet,
  handle_syn_packet, handle_fin_packet, handle_packet, drop_expired_sessions,
  cleanup_expired_sessions, Step, arrives, cleanup, step, run,
}

-- A session that has no name and has saved nothing.
pub record IsUnsaved (session : TransferSession) : Type 0 where
  pub nameless : session.file_name ≡ []
  pub nothing : session.transferred ≡ 0

abbrev Entry : Type 0
Entry = (String × ℕ) × TransferSession

abbrev pub AllUnsaved : List Entry → Type 0
AllUnsaved = AllValues IsUnsaved

found-IsUnsaved :
    (key : String × ℕ) (m : List Entry) (fresh : TransferSession)
    → AllUnsaved m
    → IsUnsaved fresh
    → IsUnsaved (found_or_new (lookup key m) fresh)
unfolding lookup
found-IsUnsaved key [] fresh h f = f
found-IsUnsaved key ((k, v) ∷ m) fresh h f = elim (Bool-cases (pair_key.beq k key)) [
  | inl hit ↦ rw hit h.0
  | inr miss ↦ rw miss (found-IsUnsaved key m fresh h.1 f)
]

drop-AllUnsaved :
    (now timeout : ℕ) (m : List Entry)
    → AllUnsaved m
    → AllUnsaved (drop_expired_sessions now timeout m)
unfolding drop_expired_sessions
drop-AllUnsaved now timeout [] all = tt
drop-AllUnsaved now timeout ((k, w) ∷ m) all =
    elim (Bool-cases (ltb timeout (now - w.last_update))) [
      | inl late ↦ rw (drop_expired_sessions, late) (drop-AllUnsaved now timeout m all.1)
      | inr early ↦ rw (drop_expired_sessions, early) (all.0, drop-AllUnsaved now timeout m all.1)
    ]

-- What a step keeps.
record Keeps (s s' : UdpServer) : Type 0 where
  unsaved : AllUnsaved s'.sessions
  progress : s'.progress ≡ s.progress

module _ (saves : Text → Bytes → ℕ → Bool)
    (refuses : (payload : Bytes) (offset : ℕ) → saves [] payload offset ≡ false) where
  -- The call of SaveFile fails: only a session without a name is added.
  data_packet-same :
      (s : UdpServer) (p : Packet) (addr : String) (now : ℕ) (written : Bool)
      → AllUnsaved s.sessions
      → handle_data_packet saves s p addr now written ≡ record s {
        sessions =
            insert
              (addr, p.seq_num)
              (found_or_new (lookup (addr, p.seq_num) s.sessions) (new_session s addr now))
              s.sessions;
      }
  unfolding handle_data_packet
  data_packet-same s p addr now written all =
      let u =
        found-IsUnsaved (addr, p.seq_num) s.sessions (new_session s addr now) all
          (record { nameless = refl; nothing = refl }) in
      rw (handle_data_packet, u.nameless, refuses p.payload p.seq_num) refl

  data_packet-Keeps :
      (s : UdpServer) (p : Packet) (addr : String) (now : ℕ) (written : Bool)
      → AllUnsaved s.sessions
      → Keeps s (handle_data_packet saves s p addr now written)
  data_packet-Keeps s p addr now written all =
      let u =
        found-IsUnsaved (addr, p.seq_num) s.sessions (new_session s addr now) all
          (record { nameless = refl; nothing = refl }) in
      rw (data_packet-same s p addr now written all) (record {
        unsaved = insert-AllValues IsUnsaved (addr, p.seq_num) _ s.sessions u all;
        progress = refl;
      })

  packet-Keeps :
      (s : UdpServer) (p : Packet) (addr : String) (now : ℕ) (now_text : Text) (written : Bool)
      → AllUnsaved s.sessions
      → Keeps s (handle_packet saves s p addr now now_text written)
  unfolding handle_packet handle_command handle_syn_packet handle_fin_packet
  packet-Keeps s p addr now now_text written all =
      elim (Bool-cases (p.type == PacketType.command)) [
        | inl a ↦ rw (handle_packet, a) (record { unsaved = all; progress = refl })
        | inr a ↦ elim (Bool-cases (p.type == PacketType.data_packet)) [
          | inl b ↦ rw (handle_packet, a, b) (data_packet-Keeps s p addr now written all)
          | inr b ↦ elim (Bool-cases (p.type == PacketType.syn)) [
            | inl c ↦ rw (handle_packet, a, b, c) (record { unsaved = all; progress = refl })
            | inr c ↦ elim (Bool-cases (p.type == PacketType.fin)) [
              | inl d ↦
                  rw (handle_packet, a, b, c, d)
                    (record {
                      unsaved = erase-AllValues IsUnsaved (addr, p.seq_num) s.sessions all;
                      progress = refl;
                    })
              | inr d ↦ rw (handle_packet, a, b, c, d) (record { unsaved = all; progress = refl })
            ]
          ]
        ]
      ]

  step-Keeps : (s : UdpServer) (x : Step) → AllUnsaved s.sessions → Keeps s (step saves s x)
  unfolding step cleanup_expired_sessions
  step-Keeps s (arrives p addr now now_text written) all =
      packet-Keeps s p addr now now_text written all
  step-Keeps s (cleanup now) all = record {
    unsaved = drop-AllUnsaved now s.session_timeout s.sessions all;
    progress = refl;
  }

  run-Keeps : (xs : List Step) (s : UdpServer) → AllUnsaved s.sessions → Keeps s (run saves s xs)
  unfolding run
  run-Keeps [] s all = record { unsaved = all; progress = refl }
  run-Keeps (x ∷ xs) s all =
      let k = step-Keeps s x all in
      let l = run-Keeps xs (step saves s x) k.unsaved in
      record { unsaved = l.unsaved; progress = l.progress ∙ k.progress }

-- The server never saves and never acknowledges data: after any packets and clean-ups, its sessions have no file
-- name and count no bytes, the monitor has been told of no progress, and one more data packet is neither
-- acknowledged nor does it change the packets that wait. The file manager does not save under the empty name, whose path
-- is the upload directory itself; the sessions at first are such too.
pub run-unsaved :
    (saves : Text → Bytes → ℕ → Bool) (xs : List Step) (s : UdpServer) (p : Packet) (addr : String)
    (now : ℕ) (written : Bool)
    → ((payload : Bytes) (offset : ℕ) → saves [] payload offset ≡ false)
    → AllUnsaved s.sessions
    → AllUnsaved (run saves s xs).sessions
      × ((run saves s xs).progress ≡ s.progress)
      × ((handle_data_packet saves (run saves s xs) p addr now written).rel_mgr
          ≡ (run saves s xs).rel_mgr)
run-unsaved saves xs s p addr now written refuses all =
    let k = run-Keeps saves refuses xs s all in
    (
      k.unsaved,
      k.progress,
      rw (data_packet-same saves refuses (run saves s xs) p addr now written k.unsaved) refl,
    )
