-- ===== src/Session/Stuck.antt =====
-- A session after a failed write: what `deliver` of uist-game/NetworkServerSession.cpp makes of it.
use footscreen.Base.{◌≡◌, none, List, ◌∷◌, ◌++◌}
use footscreen.MessageData.{MessageData, HeaderLayout}
use footscreen.Session.Write.{Link}

module _ (l : HeaderLayout) where
  -- A session whose write has failed: packages are queued and none is under way.
  pub record IsStuck (k : Link) : Type 0 where
    pub front : MessageData
    pub behind : List MessageData
    pub queued : k.session.write_message_queue ≡ front ∷ behind
    pub quiet : k.writing ≡ none

  -- What becomes of it: the packages that were sent meanwhile stand behind those that were queued, and
  -- nothing was written.
  abbrev pub IsLeft : Link → Link → Type 0
  IsLeft k j =
      (ms : List MessageData) × (j.accepted ≡ k.accepted ++ ms)
      × (j.session.write_message_queue ≡ k.session.write_message_queue ++ ms)
      × (j.written ≡ k.written)
      × (j.writing ≡ none)
