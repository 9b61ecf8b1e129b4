-- ===== src/Watch/Stream/Answers.antt =====
-- What `recv` answers of the log of events.
