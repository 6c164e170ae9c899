-- ===== src/Process.antt =====
-- The processing of one ticket (src/zammad_pdf_archiver/app/jobs/process_ticket.py).
pub mod Services
pub mod Pipeline
pub mod Failure
pub mod Job
pub mod Keeping
pub mod Lock
pub mod Counted
pub mod Mutex
pub mod Redelivery
pub mod Archive
pub mod Outcome
