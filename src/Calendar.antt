-- ===== src/Calendar.antt =====
-- Appointments: apps/api/src/lib/calendar-availability.ts and services/calendar.service.ts. A date is
-- its number of milliseconds since 1970.
pub mod Slots
pub mod Connections
pub mod Proposals
pub mod Booking
pub mod NoDouble
