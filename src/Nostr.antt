-- ===== src/Nostr.antt =====
-- src/coldwatch/channels/nostr: the encryption of the messages.
pub mod Base64
pub mod Nip44
